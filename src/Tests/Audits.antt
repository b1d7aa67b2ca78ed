-- ===== src/Tests/Audits.antt =====
-- A log of two events, and the log after a text was moved between two fields of an entry.
use memo_build.Prelude.{
  ℕ, ◌≡◌, refl, sym, ap, ◌∙◌, ◌≢◌, true, inl, inr, List, [], ◌∷◌, ◌++◌, map, replicate, length,
  Text, codes,
}
use memo_build.Audit.{
  AuditEvent, AuditEntry, AuditLog, genesis, new_log, hashed_bytes, compute_hash, new_entry,
  verify_from, verify, log_events, event_text, build_event,
}
use memo_build.Audit.Chain.{NoCollision, last_of, log_events-verify, verify-hashed_bytes}
use memo_build.Audit.Forgery.{move_boundary, verify-forged}

abbrev sha256_hex : Text → Text
sha256_hex bytes = replicate 63 b'a' ++ length bytes ∷ []

abbrev rfc3339 : ℕ → Text
rfc3339 time = time ∷ []

abbrev events : List (ℕ × AuditEvent)
events =
    (7, build_event (λ t. t) (codes "b1") (codes "started"))
    ∷ (9, build_event (λ t. t) (codes "b1") (codes "completed"))
    ∷ []

abbrev log : AuditLog
log = log_events sha256_hex rfc3339 events new_log

log_events-verify_example :
    (verify sha256_hex rfc3339 log ≡ true) × (log.last_hash ≡ last_of genesis log.entries)
log_events-verify_example = log_events-verify sha256_hex rfc3339 events

abbrev event : AuditEvent
event = build_event (λ t. t) (codes "b1") (codes "started")

abbrev entry : AuditEntry
entry = new_entry sha256_hex rfc3339 7 event genesis

abbrev single : AuditLog
single = record { entries = entry ∷ []; last_hash = entry.hash }

single-verify : verify sha256_hex rfc3339 single ≡ true
unfolding verify verify_from new_entry compute_hash hashed_bytes build_event event_text
single-verify = refl

digest-size : (a : Text) → length (sha256_hex a) ≡ 64
digest-size a = refl

digest-fresh : (a : Text) → sha256_hex a ≢ genesis
digest-fresh a e = cc e

no_collision : NoCollision sha256_hex rfc3339 digest-size digest-fresh single.entries single.entries
no_collision e f (inl a) (inl b) same = ap (hashed_bytes sha256_hex rfc3339) (a ∙ sym b)
no_collision e f (inr m) n same = absurd m
no_collision e f (inl a) (inr n) same = absurd n

verify-hashed_bytes_example :
    map (hashed_bytes sha256_hex rfc3339) single.entries
    ≡ map (hashed_bytes sha256_hex rfc3339) single.entries
verify-hashed_bytes_example =
    verify-hashed_bytes sha256_hex rfc3339 digest-size digest-fresh single single no_collision
      single-verify single-verify refl

entry-actor : entry.actor ≡ codes "sys" ++ codes "tem"
unfolding new_entry build_event
entry-actor = refl

verify-forged_example :
    (verify sha256_hex rfc3339 (record single { entries = [] }) ≡ true)
    × (verify sha256_hex rfc3339
          (record single { entries = [] ++ move_boundary (codes "sys") (codes "tem") entry ∷ [] })
        ≡ true)
verify-forged_example =
    verify-forged sha256_hex rfc3339 single [] [] entry (codes "sys") (codes "tem") single-verify
      refl entry-actor
