-- ===== src/Cache/Remote.antt =====
-- src/cache/remote.rs, the trait `RemoteCache`: a cache behind the network. `R` is the state that its
-- calls share. Reports of events, which no caller reads back, are left out.
pub mod InMemory
pub mod Keeper
use memo_build.Prelude.{ℕ, Bool, Option, List, Text}
use memo_build.Prelude.Results.{Action}

pub record RemoteCache (R : Type 0) : Type 0 where
  pub has : Text → Action R Bool
  pub get : Text → Action R (Option Text)
  pub put : Text → Text → Action R (Unit {0})
  pub has_layer : Text → Action R Bool
  pub get_layer : Text → Action R (Option Text)
  pub put_layer : Text → Text → Action R (Unit {0})
  pub get_node_layers : Text → Action R (Option (List Text))
  pub register_node_layers : Text → List Text → ℕ → Action R (Unit {0})
