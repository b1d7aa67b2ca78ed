-- ===== src/Cache/Remote/Keeper.antt =====
-- A cache of whole artifacts that never loses one, and the cache in memory as one.
use memo_build.Prelude.{◌≡◌, refl, Option, some, arith, Text, text_eq_refl, lookup, lookup-insert}
use memo_build.Prelude.Results.{ok}
use memo_build.Cache.Remote.{RemoteCache}
use memo_build.Cache.Remote.InMemory.{in_memory}

-- A cache that gives back what was put into it, and never fails.
pub record Keeper {R : Type 0} (cache : RemoteCache R) : Type 0 where
  pub view : R → Text → Option Text
  pub get_lem : (k : Text) (r : R) → cache.get k r ≡ (ok (view r k), r)
  pub put_lem : (k bytes : Text) (r : R) → view (cache.put k bytes r).1 k ≡ some bytes

pub in_memory-Keeper : Keeper in_memory
in_memory-Keeper = record {
  view = λ r k. lookup k r.blobs;
  get_lem = λ k r. refl;
  put_lem = λ k bytes r. ground (arith, lookup-insert k k bytes r.blobs, text_eq_refl k);
}
