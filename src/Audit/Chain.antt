-- ===== src/Audit/Chain.antt =====
-- What a log that verifies proves: its last hash stands for everything that was hashed.
use memo_build.Prelude.{
  ℕ, ◌≡◌, ◌≢◌, refl, sym, subst, ap, ◌∙◌, true, ◌&&◌, List, [], ◌∷◌, ◌++◌, map, arith, length,
  length-append, inl, inr, ◌⊎◌, Text, text_eq_iff, text_eq_refl,
}
use memo_build.Audit.{
  AuditEvent, AuditEntry, AuditLog, genesis, new_log, fields, hashed_bytes, compute_hash, new_entry,
  append, verify_from, verify, log_events,
}

-- Texts of one length behind equal texts are equal.
suffix-eq : {A : Type 0} (xs ys p q : List A) → xs ++ p ≡ ys ++ q → length p ≡ length q → p ≡ q
suffix-eq [] [] p q e same = e
suffix-eq (x ∷ xs) [] p q e same = absurd (omega (arith, same, length-append xs p, ap length e))
suffix-eq [] (y ∷ ys) p q e same = absurd (omega (arith, same, length-append ys q, ap length e))
suffix-eq (x ∷ xs) (y ∷ ys) p q e same = suffix-eq xs ys p q (cc e) same

-- The last hash of a list of entries that follow a hash.
abbrev pub last_of : Text → List AuditEntry → Text
last_of prev [] = prev
last_of prev (e ∷ es) = last_of e.hash es

last_of-snoc :
    (prev : Text) (es : List AuditEntry) (e : AuditEntry) → last_of prev (es ++ e ∷ []) ≡ e.hash
last_of-snoc prev [] e = refl
last_of-snoc prev (x ∷ es) e = last_of-snoc x.hash es e

-- A list turned round in front of another.
abbrev onto : {A : Type 0} → List A → List A → List A
onto [] acc = acc
onto (x ∷ xs) acc = onto xs (x ∷ acc)

append-nil : {A : Type 0} (xs : List A) → xs ++ [] ≡ xs
append-nil [] = refl
append-nil (x ∷ xs) = ap (λ l. x ∷ l) (append-nil xs)

onto-onto : {A : Type 0} (xs acc ys : List A) → onto (onto xs acc) ys ≡ onto acc (xs ++ ys)
onto-onto [] acc ys = refl
onto-onto (x ∷ xs) acc ys = onto-onto xs (x ∷ acc) ys

onto-twice : {A : Type 0} (xs : List A) → onto (onto xs []) [] ≡ xs
onto-twice xs = onto-onto xs [] [] ∙ append-nil xs

map-onto :
    {A B : Type 0} (f : A → B) (xs acc : List A) → map f (onto xs acc) ≡ onto (map f xs) (map f acc)
map-onto f [] acc = refl
map-onto f (x ∷ xs) acc = map-onto f xs (x ∷ acc)

-- The entry is one of the list's.
abbrev pub Among : AuditEntry → List AuditEntry → Type 0
Among e [] = ⊥
Among e (x ∷ xs) = (e ≡ x) ⊎ Among e xs

Among-onto :
    (e : AuditEntry) (xs acc : List AuditEntry) → Among e (onto xs acc) → Among e xs ⊎ Among e acc
Among-onto e [] acc m = inr m
Among-onto e (x ∷ xs) acc m = elim (Among-onto e xs (x ∷ acc) m) [
  | inl later ↦ inl (inr later)
  | inr (inl here) ↦ inl (inl here)
  | inr (inr old) ↦ inr old
]

Among-turned : (e : AuditEntry) (xs : List AuditEntry) → Among e (onto xs []) → Among e xs
Among-turned e xs m = elim (Among-onto e xs [] m) [ inl later ↦ later | inr none ↦ absurd none ]

module _ (sha256_hex : Text → Text) (rfc3339 : ℕ → Text) where
  pub verify_from-append :
      (prev : Text) (es fs : List AuditEntry)
      → verify_from sha256_hex rfc3339 prev (es ++ fs) ≡ (
          verify_from sha256_hex rfc3339 prev es
          && verify_from sha256_hex rfc3339 (last_of prev es) fs)
  unfolding verify_from
  verify_from-append prev [] fs = refl
  verify_from-append prev (e ∷ es) fs = ground (arith, verify_from-append e.hash es fs)

  -- The log's last hash is that of its last entry, and the log verifies.
  record IsSound (log : AuditLog) : Type 0 where
    last : log.last_hash ≡ last_of genesis log.entries
    verified : verify sha256_hex rfc3339 log ≡ true

  append-IsSound :
      (now : ℕ) (event : AuditEvent) (log : AuditLog)
      → IsSound log
      → IsSound (append sha256_hex rfc3339 now event log)
  unfolding append verify new_entry compute_hash hashed_bytes verify_from
  append-IsSound now event log sound =
      let entry = new_entry sha256_hex rfc3339 now event log.last_hash in
      record {
        last = sym (last_of-snoc genesis log.entries entry);
        verified = ground (
          arith,
          verify_from-append genesis log.entries (entry ∷ []),
          sound.verified,
          sound.last,
          text_eq_refl log.last_hash,
          text_eq_refl entry.hash,
        );
      }

  log_events-IsSound :
      (events : List (ℕ × AuditEvent)) (log : AuditLog)
      → IsSound log
      → IsSound (log_events sha256_hex rfc3339 events log)
  unfolding log_events
  log_events-IsSound [] log sound = sound
  log_events-IsSound ((now, event) ∷ events) log sound =
      log_events-IsSound events _ (append-IsSound now event log sound)

  -- Whatever events are logged on a new log, in whatever order and at whatever times, the log verifies,
  -- and its last hash is that of its last entry.
  pub log_events-verify :
      (events : List (ℕ × AuditEvent))
      → (verify sha256_hex rfc3339 (log_events sha256_hex rfc3339 events new_log) ≡ true)
        × ((log_events sha256_hex rfc3339 events new_log).last_hash
            ≡ last_of genesis (log_events sha256_hex rfc3339 events new_log).entries)
  unfolding verify verify_from
  log_events-verify events =
      let sound = log_events-IsSound events new_log (record { last = refl; verified = refl }) in
      (sound.verified, sound.last)

  -- The entries from the last one on, each named by its digest and holding the hash of the one before.
  abbrev Chained : Text → List AuditEntry → Type 0
  Chained h [] = h ≡ genesis
  Chained h (e ∷ es) =
      (e.hash ≡ h) × (compute_hash sha256_hex rfc3339 e ≡ e.hash) × Chained e.prev_hash es

  verify_from-Chained :
      (prev : Text) (es acc : List AuditEntry)
      → Chained prev acc
      → verify_from sha256_hex rfc3339 prev es ≡ true
      → Chained (last_of prev es) (onto es acc)
  unfolding verify_from
  verify_from-Chained prev [] acc chain ok = chain
  verify_from-Chained prev (e ∷ es) acc chain ok =
      let linked : e.prev_hash ≡ prev = (text_eq_iff e.prev_hash prev).0 (ground (arith, ok)) in
      let named : compute_hash sha256_hex rfc3339 e ≡ e.hash =
        (text_eq_iff (compute_hash sha256_hex rfc3339 e) e.hash).0 (ground (arith, ok)) in
      verify_from-Chained e.hash es (e ∷ acc)
        (refl, named, subst (λ h. Chained h acc) (sym linked) chain) (ground (arith, ok))

  module _ (size : (a : Text) → length (sha256_hex a) ≡ 64)
      (fresh : (a : Text) → sha256_hex a ≢ genesis) where
    prev_hash-length : (h : Text) (es : List AuditEntry) → Chained h es → length h ≡ 64
    unfolding compute_hash
    prev_hash-length h [] chain = ap length chain
    prev_hash-length h (e ∷ es) chain =
        ap length (sym chain.0) ∙ ap length (sym chain.1) ∙ size (hashed_bytes sha256_hex rfc3339 e)

    bytes-prev_hash :
        (e f : AuditEntry)
        → hashed_bytes sha256_hex rfc3339 e ≡ hashed_bytes sha256_hex rfc3339 f
        → length e.prev_hash ≡ length f.prev_hash
        → e.prev_hash ≡ f.prev_hash
    unfolding hashed_bytes
    bytes-prev_hash e f same sizes =
        suffix-eq (fields sha256_hex rfc3339 e) (fields sha256_hex rfc3339 f) e.prev_hash
          f.prev_hash same sizes

    -- No entry of the one list has the digest of an entry of the other with other bytes.
    abbrev pub NoCollision : List AuditEntry → List AuditEntry → Type 0
    NoCollision es fs =
        (e f : AuditEntry)
        → Among e es
        → Among f fs
        → compute_hash sha256_hex rfc3339 e ≡ compute_hash sha256_hex rfc3339 f
        → hashed_bytes sha256_hex rfc3339 e ≡ hashed_bytes sha256_hex rfc3339 f

    Chained-bytes :
        (h : Text) (es fs : List AuditEntry)
        → NoCollision es fs
        → Chained h es
        → Chained h fs
        → map (hashed_bytes sha256_hex rfc3339) es ≡ map (hashed_bytes sha256_hex rfc3339) fs
    unfolding compute_hash
    Chained-bytes h [] [] apart c d = refl
    Chained-bytes h [] (f ∷ fs) apart c d =
        absurd (fresh (hashed_bytes sha256_hex rfc3339 f) (d.1 ∙ d.0 ∙ c))
    Chained-bytes h (e ∷ es) [] apart c d =
        absurd (fresh (hashed_bytes sha256_hex rfc3339 e) (c.1 ∙ c.0 ∙ d))
    Chained-bytes h (e ∷ es) (f ∷ fs) apart c d =
        let same = apart e f (inl refl) (inl refl) (c.1 ∙ c.0 ∙ sym (d.1 ∙ d.0)) in
        let sizes =
          prev_hash-length e.prev_hash es c.2 ∙ sym (prev_hash-length f.prev_hash fs d.2) in
        let prev = bytes-prev_hash e f same sizes in
        let rest =
          Chained-bytes f.prev_hash es fs (λ x y m n. apart x y (inr m) (inr n))
            (subst (λ p. Chained p es) prev c.2) d.2 in
        ap (λ b. b ∷ map (hashed_bytes sha256_hex rfc3339) es) same
        ∙ ap (λ l. hashed_bytes sha256_hex rfc3339 f ∷ l) rest

    -- Let digests have 64 characters and never be the genesis hash, and let no entry of the one log
    -- collide with an entry of the other. Two logs that verify and end in the same hash have the same
    -- number of entries, and in each place entries of which the same bytes were hashed: nothing was put
    -- in, taken out, or moved from place to place.
    pub verify-hashed_bytes :
        (log log' : AuditLog)
        → NoCollision log.entries log'.entries
        → verify sha256_hex rfc3339 log ≡ true
        → verify sha256_hex rfc3339 log' ≡ true
        → last_of genesis log.entries ≡ last_of genesis log'.entries
        → map (hashed_bytes sha256_hex rfc3339) log.entries
          ≡ map (hashed_bytes sha256_hex rfc3339) log'.entries
    unfolding verify
    verify-hashed_bytes log log' apart ok ok' same =
        let es = log.entries in
        let fs = log'.entries in
        let bytes = hashed_bytes sha256_hex rfc3339 in
        let c = verify_from-Chained genesis es [] refl ok in
        let d = verify_from-Chained genesis fs [] refl ok' in
        let turned =
          Chained-bytes (last_of genesis fs) (onto es []) (onto fs [])
            (λ x y m n. apart x y (Among-turned x es m) (Among-turned y fs n))
            (subst (λ h. Chained h (onto es [])) same c) d in
        let lists = sym (map-onto bytes es []) ∙ turned ∙ map-onto bytes fs [] in
        sym (onto-twice (map bytes es)) ∙ ap (λ l. onto l []) lists ∙ onto-twice (map bytes fs)
