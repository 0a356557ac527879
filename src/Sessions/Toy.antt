-- ===== src/Sessions/Toy.antt =====
-- A library whose digest is the secret itself, filled to its length.
use bormo_stats.Base.{
  ℕ, zero, suc, ◌+◌, ◌≡◌, refl, ap, sym, ◌∙◌, ◌-◌, Option, none, some, [], ◌∷◌, length, arith,
}
use bormo_stats.Base.Text.{codes}
use bormo_stats.Base.Results.{some_injective}
use bormo_stats.Sessions.Table.{Text}
use bormo_stats.Sessions.Secrets.{Crypto, IsCrypto, IsPlain, join_dollar, hash_parts}
use bormo_stats.Sessions.Defs.{Hasher}
use bormo_stats.Sessions.Passwords.{security}

-- The first `n` numbers of a text, filled up with zeros.
abbrev pub fill : ℕ → Text → Text
fill zero s = []
fill (suc n) [] = 0 ∷ fill n []
fill (suc n) (c ∷ s) = c ∷ fill n s

length-fill : (n : ℕ) (s : Text) → length (fill n s) ≡ n
length-fill zero s = refl
length-fill (suc n) [] = omega (arith, length-fill n [])
length-fill (suc n) (c ∷ s) = omega (arith, length-fill n s)

-- Numbers above the dollar sign, and back.
abbrev shift : Text → Text
shift [] = []
shift (c ∷ s) = (c + 37) ∷ shift s

abbrev unshift : Text → Text
unshift [] = []
unshift (c ∷ s) = (c - 37) ∷ unshift s

abbrev unshift_one : Text → Option ℕ
unshift_one [] = none
unshift_one (c ∷ s) = some (c - 37)

abbrev pub toy : Crypto
toy = record {
  scrypt = λ secret salt n r p len. some (fill len secret);
  b64encode = shift;
  b64decode = λ s. some (unshift s);
  str = λ n. shift (n ∷ []);
  int = unshift_one;
  sha256_hex = λ s. s;
}

unshift_lem : (c : ℕ) → c + 37 - 37 ≡ c
unshift_lem c = omega arith

unshift-shift : (s : Text) → unshift (shift s) ≡ s
unshift-shift [] = refl
unshift-shift (c ∷ s) = rw (unshift_lem c, unshift-shift s) refl

shift-IsPlain : (s : Text) → IsPlain (shift s)
shift-IsPlain [] = tt
shift-IsPlain (c ∷ s) = (ground arith, shift-IsPlain s)

pub toy-IsCrypto : IsCrypto toy
toy-IsCrypto = record {
  decode-encode = λ b. ap some (unshift-shift b);
  encode-IsPlain = shift-IsPlain;
  int-str = λ n. ap some (unshift_lem n);
  str-IsPlain = λ n. shift-IsPlain (n ∷ []);
  length-scrypt =
      λ secret salt n r p len d e. ap length (sym (some_injective e)) ∙ length-fill len secret;
}

abbrev pub hasher : Hasher
hasher = security toy

abbrev pub stored : Text
stored = join_dollar (hash_parts toy (codes "salt") (fill 32 (codes "k")))
