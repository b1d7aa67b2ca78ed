-- ===== src/Server/Storage/Paths.antt =====
-- Where a blob is stored.
use mathlib.Core.List.{append_assoc}
use memo_build.Prelude.{
  ℕ, zero, suc, ◌+◌, ◌≡◌, refl, sym, ap, ◌∙◌, Bool, true, false, not, ◌&&◌, ◌||◌, [], ◌∷◌, ◌++◌,
  arith, ◌==◌, ltb, length, length-append, drop, Text, text_eq, text_eq_iff, join, is_empty,
  ends_with_slash,
}
use memo_build.Server.Storage.{get_sharded_path}

-- The text holds no separator.
abbrev pub has_no_slash : Text → Bool
has_no_slash [] = true
has_no_slash (c ∷ t) = not (c == b'/') && has_no_slash t

-- The name of a blob: at least four characters, and none is a separator.
abbrev pub is_plain : Text → Bool
is_plain hash = not (ltb (length hash) 4) && has_no_slash hash

-- A directory's path that is not empty and does not end in a separator.
abbrev pub is_directory : Text → Bool
is_directory base_dir = not (is_empty base_dir || ends_with_slash base_dir)

ends_with_slash-append :
    (s : Text) (c : ℕ) (t : Text) → ends_with_slash (s ++ c ∷ t) ≡ ends_with_slash (c ∷ t)
ends_with_slash-append [] c t = refl
ends_with_slash-append (a ∷ []) c t = refl
ends_with_slash-append (a ∷ b ∷ s) c t = ends_with_slash-append (b ∷ s) c t

is_empty-append : (s : Text) (c : ℕ) (t : Text) → is_empty (s ++ c ∷ t) ≡ false
is_empty-append [] c t = refl
is_empty-append (a ∷ s) c t = refl

join-plain :
    (root : Text) (c : ℕ) (t : Text)
    → is_directory root ≡ true
    → (c == b'/') ≡ false
    → join root (c ∷ t) ≡ root ++ b'/' ∷ c ∷ t
unfolding join
join-plain root c t dir plain =
    let inner : (is_empty root || ends_with_slash root) ≡ false = ground arith in
    rw (plain, inner) refl

is_directory-append :
    (root : Text) (a b : ℕ) → (b == b'/') ≡ false → is_directory (root ++ b'/' ∷ a ∷ b ∷ []) ≡ true
is_directory-append root a b plain =
    rw (is_empty-append root b'/' (a ∷ b ∷ []), ends_with_slash-append root b'/' (a ∷ b ∷ []))
      (ground arith)

-- The path in full.
pub get_sharded_path-plain :
    (base_dir : Text) (a b c d : ℕ) (t : Text)
    → is_directory base_dir ≡ true
    → has_no_slash (a ∷ b ∷ c ∷ d ∷ t) ≡ true
    → get_sharded_path base_dir (a ∷ b ∷ c ∷ d ∷ t)
      ≡ ((base_dir ++ b'/' ∷ a ∷ b ∷ []) ++ b'/' ∷ c ∷ d ∷ []) ++ b'/' ∷ a ∷ b ∷ c ∷ d ∷ t
unfolding get_sharded_path
get_sharded_path-plain base_dir a b c d t dir plain =
    let long : ltb (length (a ∷ b ∷ c ∷ d ∷ t)) 4 ≡ false = ground arith in
    rw (long, join-plain base_dir a (b ∷ []) dir (ground arith))
      (rw
        (join-plain (base_dir ++ b'/' ∷ a ∷ b ∷ []) c (d ∷ [])
          (is_directory-append base_dir a b (ground arith)) (ground arith))
        (join-plain ((base_dir ++ b'/' ∷ a ∷ b ∷ []) ++ b'/' ∷ c ∷ d ∷ []) a (b ∷ c ∷ d ∷ t)
          (is_directory-append (base_dir ++ b'/' ∷ a ∷ b ∷ []) c d (ground arith)) (ground arith)))

drop-append : (s t : Text) (n : ℕ) → n ≡ length s → drop n (s ++ t) ≡ t
drop-append [] t zero e = refl
drop-append [] t (suc n) e = absurd (omega arith)
drop-append (a ∷ s) t zero e = absurd (omega arith)
drop-append (a ∷ s) t (suc n) e = drop-append s t n (omega arith)

-- The name of a blob is what its path ends in.
drop-get_sharded_path :
    (base_dir hash : Text)
    → is_directory base_dir ≡ true
    → is_plain hash ≡ true
    → drop (length base_dir + 7) (get_sharded_path base_dir hash) ≡ hash
drop-get_sharded_path base_dir [] dir plain = cc
drop-get_sharded_path base_dir (a ∷ []) dir plain = ground arith
drop-get_sharded_path base_dir (a ∷ b ∷ []) dir plain = ground arith
drop-get_sharded_path base_dir (a ∷ b ∷ c ∷ []) dir plain = ground arith
drop-get_sharded_path base_dir (a ∷ b ∷ c ∷ d ∷ t) dir plain =
    let s = base_dir ++ b'/' ∷ a ∷ b ∷ [] in
    let front = (s ++ b'/' ∷ c ∷ d ∷ []) ++ b'/' ∷ [] in
    ap (drop (length base_dir + 7)) (
      get_sharded_path-plain base_dir a b c d t dir (ground arith)
      ∙ sym (append_assoc (s ++ b'/' ∷ c ∷ d ∷ []) (b'/' ∷ []) (a ∷ b ∷ c ∷ d ∷ t)))
    ∙ drop-append front (a ∷ b ∷ c ∷ d ∷ t) (length base_dir + 7) (
        omega (
          arith,
          length-append base_dir (b'/' ∷ a ∷ b ∷ []),
          length-append s (b'/' ∷ c ∷ d ∷ []),
          length-append (s ++ b'/' ∷ c ∷ d ∷ []) (b'/' ∷ []),
        ))

iff_eq : (a b : Bool) → (a ≡ true → b ≡ true) → (b ≡ true → a ≡ true) → a ≡ b
iff_eq true b f g = sym (f refl)
iff_eq false true f g = g refl
iff_eq false false f g = refl

-- Different plain names have different paths.
pub text_eq-get_sharded_path :
    (base_dir h k : Text)
    → is_directory base_dir ≡ true
    → is_plain h ≡ true
    → is_plain k ≡ true
    → text_eq (get_sharded_path base_dir h) (get_sharded_path base_dir k) ≡ text_eq h k
text_eq-get_sharded_path base_dir h k dir ph pk =
    let p = get_sharded_path base_dir h in
    let q = get_sharded_path base_dir k in
    let inverse : p ≡ q → h ≡ k = λ e.
      sym (drop-get_sharded_path base_dir h dir ph)
      ∙ ap (drop (length base_dir + 7)) e
      ∙ drop-get_sharded_path base_dir k dir pk in
    iff_eq (text_eq p q) (text_eq h k) (λ e. (text_eq_iff h k).1 (inverse ((text_eq_iff p q).0 e)))
      (λ e. (text_eq_iff p q).1 (ap (get_sharded_path base_dir) ((text_eq_iff h k).0 e)))
