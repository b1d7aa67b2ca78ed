-- ===== src/Tests/Regions.antt =====
-- A router over two regions, the first of which is down.
use memo_build.Prelude.{◌≡◌, refl, true, false, some, [], ◌∷◌, codes}
use memo_build.Prelude.Results.{ok, err, remote_error}
use memo_build.Cache.Remote.{RemoteCache}
use memo_build.Cache.Remote.Keeper.{in_memory-Keeper}
use memo_build.Cache.Remote.InMemory.{Memory, in_memory}
use memo_build.Cache.Router.{RegionNode, first_healthy, router}
use memo_build.Cache.Router.Reads.{AreHarmless, get-put}

-- A cache that cannot be reached.
abbrev unreachable : RemoteCache Memory
unreachable = record in_memory {
  get = λ k r. (err remote_error, r);
  put = λ k bytes r. (err remote_error, r);
}

abbrev down : RegionNode Memory
down = record {
  name = codes "eu";
  endpoint = codes "http://eu";
  client = unreachable;
  healthy = false;
}

abbrev up : RegionNode Memory
up = record { name = codes "us"; endpoint = codes "http://us"; client = in_memory; healthy = true }

empty_memory : Memory
empty_memory = record { blobs = []; layer_store = []; node_store = [] }

up_first : first_healthy (down ∷ up ∷ []) ≡ some up
unfolding first_healthy
up_first = refl

regions-AreHarmless : AreHarmless up in_memory-Keeper (down ∷ up ∷ [])
regions-AreHarmless =
    (λ k bytes r has. has, (λ k bytes r has. in_memory-Keeper.put_lem k bytes r, tt))

get-put_example :
    (((router (down ∷ up ∷ [])).put (codes "key") (codes "artifact") empty_memory).0 ≡ ok tt)
    × (((router (down ∷ up ∷ [])).get
          (codes "key")
          ((router (down ∷ up ∷ [])).put (codes "key") (codes "artifact") empty_memory).1).0
        ≡ ok (some (codes "artifact")))
get-put_example =
    get-put up in_memory-Keeper (codes "key") (codes "artifact") (down ∷ up ∷ []) empty_memory
      up_first regions-AreHarmless refl
