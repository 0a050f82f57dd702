-- ===== src/Canonical/Tests.antt =====
-- Values that are hashed and values that are refused.
use jamp.Prelude.{ℕ, List, some, ◌≡◌, refl, String, ok, err, ◌↔◌, true}
use jamp.Prelude.Int.{pos}
use jamp.Canonical.{
  Value, null, int, float, list, tuple, dict, nil, cons, end, field, text, other, normalize,
  is_finite, replay_hash, not_finite, key_not_text,
}
use jamp.Canonical.Normal.{is_canonical, json_of, replay_hash_iff}
use jamp.Sample.{sample_hasher, sample_sha256, write}

abbrev report : Value
report = dict (field (text "n") (int (pos 3)) (field (text "xs") (list (cons null nil)) end))

-- A list and a tuple normalize alike.
normalize_tuple : normalize (tuple (cons null nil)) ≡ normalize (list (cons null nil))
unfolding normalize
normalize_tuple = refl

normalize_nan : normalize (float 0x7ff8000000000000) ≡ err not_finite
unfolding normalize is_finite
normalize_nan = refl

normalize_one : is_canonical (float 0x3ff0000000000000) ≡ is_canonical null
unfolding is_canonical is_finite
normalize_one = refl

normalize_key : normalize (dict (field other null end)) ≡ err key_not_text
unfolding normalize
normalize_key = refl

is_canonical-report : is_canonical report ≡ true
unfolding is_canonical
is_canonical-report = refl

abbrev report_digest : String
report_digest = sample_sha256 (write (json_of report))

replay_hash_iff_example : (replay_hash sample_hasher report ≡ ok report_digest) ↔ (
    (is_canonical report ≡ true)
    × ((bytes : List ℕ) × (sample_hasher.canonicalize (json_of report) ≡ some bytes)
        × (report_digest ≡ sample_hasher.sha256 bytes)))
replay_hash_iff_example = replay_hash_iff sample_hasher report report_digest
