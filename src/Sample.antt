-- ===== src/Sample.antt =====
-- A hasher for the tests: values are written in a simple form, and the digest is 64 binary digits of a
-- polynomial hash.
use Prim.Native.Nat.{◌%◌, ◌/◌, ◌^◌}
use mathlib.Core.List.{foldl}
use jamp.Prelude.{
  ℕ, zero, suc, ◌+◌, ◌*◌, String, ◌≡◌, refl, true, some, List, [], ◌∷◌, ◌++◌, nat_beq,
  if◌then◌else◌, length, all, ap, inl, inr, Bool-cases,
}
use jamp.Prelude.Int.{pos_part}
use jamp.Prelude.Text.{codes, is_hex_digit, is_sha256}
use jamp.Canonical.{
  Json, jnull, jbool, jint, jfloat, jstr, jarr, jobj, Elements, jnil, jcons, Members, jend, member,
  Hasher,
}

unfoldable mutual
  pub write : Json → List ℕ
  write jnull = 1 ∷ []
  write (jbool b) = (if b then 2 else 3) ∷ []
  write (jint n) = 4 ∷ pos_part n ∷ []
  write (jfloat bits) = 5 ∷ bits ∷ []
  write (jstr s) = 6 ∷ codes s
  write (jarr es) = 7 ∷ write_elements es
  write (jobj ms) = 8 ∷ write_members ms

  pub write_elements : Elements → List ℕ
  write_elements jnil = []
  write_elements (jcons e es) = write e ++ write_elements es

  pub write_members : Members → List ℕ
  write_members jend = []
  write_members (member k e ms) = codes k ++ write e ++ write_members ms

-- The last `k` binary digits of a number.
unfoldable pub binary : ℕ → ℕ → String
binary zero n = String.[]
binary (suc k) n = String.◌∷◌ (if nat_beq (n % 2) 0 then "0" else "1") (binary k (n / 2))

length-binary : (k n : ℕ) → length (codes (binary k n)) ≡ k
unfolding binary
length-binary zero n = refl
length-binary (suc k) n = ap suc (length-binary k (n / 2))

hex-binary : (k n : ℕ) → all is_hex_digit (codes (binary k n)) ≡ true
unfolding binary
hex-binary zero n = refl
hex-binary (suc k) n = elim (Bool-cases (nat_beq (n % 2) 0)) [
  | inl e ↦ rw (e, hex-binary k (n / 2))
  | inr e ↦ rw (e, hex-binary k (n / 2))
]

abbrev mix : ℕ → ℕ → ℕ
mix acc b = (acc * 131 + b) % 2 ^ 61

unfoldable pub sample_sha256 : List ℕ → String
unfolding binary
sample_sha256 bytes = binary 64 (foldl mix 7 bytes)

is_sha256_of_parts :
    (s : String) → length (codes s) ≡ 64 → all is_hex_digit (codes s) ≡ true → is_sha256 s ≡ true
unfolding is_sha256
is_sha256_of_parts s n d = rw (n, d)

pub sample_sha256_lem : (bytes : List ℕ) → is_sha256 (sample_sha256 bytes) ≡ true
unfolding sample_sha256
sample_sha256_lem bytes =
    is_sha256_of_parts (binary 64 (foldl mix 7 bytes)) (length-binary 64 (foldl mix 7 bytes))
      (hex-binary 64 (foldl mix 7 bytes))

abbrev pub sample_hasher : Hasher
sample_hasher = record {
  canonicalize = λ j. some (write j);
  sha256 = sample_sha256;
  sha256_lem = sample_sha256_lem;
}
