-- ===== src/Cache/Router/Reads.antt =====
-- Reads through the router: they never fail, and find what was written.
use memo_build.Prelude.{
  ◌≡◌, refl, sym, ap, ◌∙◌, Bool, not, Option, none, some, List, [], ◌∷◌, if◌then◌else◌, inl, inr,
  Bool-cases, some_inj, filter, Text, text_eq,
}
use memo_build.Prelude.Results.{Result, ok, err, Action}
use memo_build.Cache.Remote.{RemoteCache}
use memo_build.Cache.Remote.Keeper.{Keeper}
use memo_build.Cache.Router.{
  RegionNode, select_nodes_for_read, select_primary_for_write, select_replicas_for_write,
  first_healthy, send_all, write_from, write_to, unless_found, first_found, router,
}

module _ {R : Type 0} {A : Type 0} (question : RemoteCache R → Action R (Option A)) where
  unless_found-ok :
      (answer : Result (Option A)) (rest : Action R (Option A)) (s : R)
      → (a : Option A) × ((rest s).0 ≡ ok a)
      → (a : Option A) × ((unless_found answer rest s).0 ≡ ok a)
  unless_found-ok (ok (some a)) rest s h = (some a, refl)
  unless_found-ok (ok none) rest s h = h
  unless_found-ok (err e) rest s h = h

  -- A read of any regions in any state returns: an error of a region is passed over.
  pub first_found-ok :
      (regions : List (RegionNode R)) (s : R)
      → (a : Option A) × ((first_found question regions s).0 ≡ ok a)
  unfolding first_found
  first_found-ok [] s = (none, refl)
  first_found-ok (region ∷ regions) s =
      let (answer, s') = question region.client s in
      unless_found-ok answer (first_found question regions) s' (first_found-ok regions s')

module _ {R : Type 0} (primary : RegionNode R) (keeper : Keeper primary.client) where
  -- Where the primary has an artifact, writing it to another region does not take it away.
  abbrev pub AreHarmless : List (RegionNode R) → Type 0
  AreHarmless [] = Unit
  AreHarmless (region ∷ regions) =
      ((k bytes : Text) (r : R)
        → keeper.view r k ≡ some bytes
        → keeper.view (region.client.put k bytes r).1 k ≡ some bytes)
      × AreHarmless regions

  AreHarmless-filter :
      (p : RegionNode R → Bool) (regions : List (RegionNode R))
      → AreHarmless regions
      → AreHarmless (filter p regions)
  AreHarmless-filter p [] h = tt
  AreHarmless-filter p (region ∷ regions) h = elim (Bool-cases (p region)) [
    | inl keep ↦ rw keep (h.0, AreHarmless-filter p regions h.1)
    | inr drop ↦ rw drop (AreHarmless-filter p regions h.1)
  ]

  module _ (key bytes : Text) where
    send_all-keeps :
        (regions : List (RegionNode R)) (r : R)
        → AreHarmless regions
        → keeper.view r key ≡ some bytes
        → ((send_all (λ c. c.put key bytes) regions r).0 ≡ ok tt)
          × (keeper.view (send_all (λ c. c.put key bytes) regions r).1 key ≡ some bytes)
    unfolding send_all
    send_all-keeps [] r h has = (refl, has)
    send_all-keeps (region ∷ regions) r h has =
        send_all-keeps regions (region.client.put key bytes r).1 h.1 (h.0 key bytes r has)

    first_found-primary :
        (regions : List (RegionNode R)) (r : R)
        → first_healthy regions ≡ some primary
        → keeper.view r key ≡ some bytes
        → first_found (λ c. c.get key) (select_nodes_for_read regions) r ≡ (ok (some bytes), r)
    unfolding first_found select_nodes_for_read first_healthy
    first_found-primary [] r first has = cc
    first_found-primary (region ∷ regions) r first has = elim (Bool-cases region.healthy) [
      | inl healthy ↦
          let same : region ≡ primary =
            some_inj
              (sym (ap (λ b. if b then some region else first_healthy regions) healthy) ∙ first) in
          rw (healthy, same, keeper.get_lem, has) refl
      | inr ill ↦ rw ill (
          first_found-primary regions r
            (sym (ap (λ b. if b then some region else first_healthy regions) ill) ∙ first) has)
    ]

    -- Where some region is healthy, and the first such region accepts the artifact, keeps what it is
    -- given and loses it by no write to another region, a put through the router succeeds, whatever the
    -- other regions answer, and a get then finds the bytes that were put.
    pub get-put :
        (regions : List (RegionNode R)) (r : R)
        → first_healthy regions ≡ some primary
        → AreHarmless regions
        → (primary.client.put key bytes r).0 ≡ ok tt
        → (((router regions).put key bytes r).0 ≡ ok tt)
          × (((router regions).get key ((router regions).put key bytes r).1).0 ≡ ok (some bytes))
    unfolding write_to write_from select_primary_for_write select_replicas_for_write
    get-put regions r first harmless stored =
        let others = select_replicas_for_write primary.name regions in
        let (done, has) =
          send_all-keeps others (primary.client.put key bytes r).1
            (AreHarmless-filter (λ (n : RegionNode R). not (text_eq n.name primary.name)) regions
              harmless)
            (keeper.put_lem key bytes r) in
        let writes : (router regions).put key bytes r
            ≡ send_all (λ c. c.put key bytes) others (primary.client.put key bytes r).1 =
          rw (first, stored) refl in
        (
          ap (λ (q : Result (Unit {0}) × R). q.0) writes ∙ done,
          ap (λ (q : Result (Option Text) × R). q.0)
              (first_found-primary regions _ first
                (ap (λ (q : Result (Unit {0}) × R). keeper.view q.1 key) writes ∙ has)),
        )
