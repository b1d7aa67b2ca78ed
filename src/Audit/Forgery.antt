-- ===== src/Audit/Forgery.antt =====
-- Changes of a log that its check does not see.
use memo_build.Prelude.{ℕ, ◌≡◌, refl, sym, ap, ◌∙◌, true, List, [], ◌∷◌, ◌++◌, arith, Text}
use memo_build.Audit.{
  AuditEntry, AuditLog, genesis, event_text, hashed_bytes, compute_hash, verify_from, verify,
}
use memo_build.Audit.Chain.{verify_from-append}

-- Text moved from the end of the actor to the front of the resource.
abbrev pub move_boundary : Text → Text → AuditEntry → AuditEntry
move_boundary actor moved e = record e { actor = actor; resource = moved ++ e.resource }

module _ (sha256_hex : Text → Text) (rfc3339 : ℕ → Text) where
  append_assoc : (xs ys zs : Text) → xs ++ ys ++ zs ≡ xs ++ (ys ++ zs)
  append_assoc [] ys zs = refl
  append_assoc (x ∷ xs) ys zs = ap (λ l. x ∷ l) (append_assoc xs ys zs)

  move_boundary-hash :
      (actor moved : Text) (e : AuditEntry)
      → e.actor ≡ actor ++ moved
      → compute_hash sha256_hex rfc3339 (move_boundary actor moved e)
        ≡ compute_hash sha256_hex rfc3339 e
  unfolding compute_hash hashed_bytes
  move_boundary-hash actor moved e split =
      let front = rfc3339 e.timestamp ++ event_text e.event_type in
      let same : front ++ actor ++ (moved ++ e.resource) ≡ front ++ (actor ++ moved) ++ e.resource =
        sym (append_assoc (front ++ actor) moved e.resource)
        ∙ ap (λ t. t ++ e.resource) (append_assoc front actor moved) in
      rw split (ap (λ t. sha256_hex (t ++ e.action ++ e.details ++ e.prev_hash)) same)

  -- The check accepts a log from whose end entries were cut off, and one in which the end of an entry's
  -- actor was moved to the front of its resource: neither needs a hash to be computed again.
  pub verify-forged :
      (log : AuditLog) (before after : List AuditEntry) (e : AuditEntry) (actor moved : Text)
      → verify sha256_hex rfc3339 log ≡ true
      → log.entries ≡ before ++ e ∷ after
      → e.actor ≡ actor ++ moved
      → (verify sha256_hex rfc3339 (record log { entries = before }) ≡ true)
        × (verify sha256_hex rfc3339
              (record log { entries = before ++ move_boundary actor moved e ∷ after })
            ≡ true)
  unfolding verify verify_from
  verify-forged log before after e actor moved ok parts split =
      let whole = verify_from-append sha256_hex rfc3339 genesis before (e ∷ after) in
      let whole' =
        verify_from-append sha256_hex rfc3339 genesis before
          (move_boundary actor moved e ∷ after) in
      let listed = sym (ap (verify_from sha256_hex rfc3339 genesis) parts) ∙ ok in
      (
        ground (arith, whole, listed),
        ground (arith, whole, whole', listed, move_boundary-hash actor moved e split),
      )
