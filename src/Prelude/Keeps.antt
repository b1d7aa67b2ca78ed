-- ===== src/Prelude/Keeps.antt =====
-- Steps that preserve what is known of the state, text by text.
use memo_build.Prelude.{Bool, true, false, if◌then◌else◌, Option, none, some, Text}
use memo_build.Prelude.Results.{Result, ok, err, Action, and_then, ◌>>=◌, ignore}

module _ {S : Type 0} (Held : Text → S → Type 0) where
  -- A step after which every artifact that was held is still held.
  abbrev pub Keeps : {A : Type 0} → Action S A → Type 0
  Keeps m = (k : Text) (s : S) → Held k s → Held k (m s).1

  pub and_then-Keeps :
      {A B : Type 0} (r : Result A) (f : A → Action S B) (k : Text) (s : S)
      → ((a : A) → Keeps (f a))
      → Held k s
      → Held k (and_then r f s).1
  and_then-Keeps (ok a) f k s keeps held = keeps a k s held
  and_then-Keeps (err e) f k s keeps held = held

  pub >>=-Keeps :
      {A B : Type 0} (m : Action S A) (f : A → Action S B)
      → Keeps m
      → ((a : A) → Keeps (f a))
      → Keeps (m >>= f)
  >>=-Keeps m f first rest k s held = and_then-Keeps (m s).0 f k (m s).1 rest (first k s held)

  pub if-Keeps :
      {A : Type 0} (c : Bool) (m n : Action S A) → Keeps m → Keeps n → Keeps (if c then m else n)
  if-Keeps true m n hm hn = hm
  if-Keeps false m n hm hn = hn

  pub ignore-Keeps : {A : Type 0} (m : Action S A) → Keeps m → Keeps (ignore m)
  ignore-Keeps m keeps = keeps

  pub option-Keeps :
      {A B : Type 0} (o : Option A) (m : Action S B) (f : A → Action S B)
      → Keeps m
      → ((a : A) → Keeps (f a))
      → Keeps (elim o [ none ↦ m | some a ↦ f a ])
  option-Keeps none m f absent present = absent
  option-Keeps (some a) m f absent present = present a
