-- ===== src/Persistence/Reads.antt =====
-- What the reads of `AuditPersistence` find, and what a write changes for them.
use jamp.Prelude.{
  String, ◌≡◌, refl, Bool, true, false, ◌||◌, Option, none, some, List, [], ◌∷◌, ◌++◌, ◌==◌,
  if◌then◌else◌, arith, inl, inr, Bool-cases,
}
use jamp.Prelude.Dict.{lookup, without, lookup-without}
use jamp.Persistence.{Record, Lines, strip, is_match, find_record}

-- The keys that a read takes away.
abbrev pub hidden : String → Bool
hidden k = "prev_hash" == k || ("record_hash" == k || "organization_id" == k)

pub lookup-strip :
    (k : String) (r : Record) → lookup k (strip r) ≡ (if hidden k then none else lookup k r)
unfolding strip
lookup-strip k r = ground (
  arith,
  lookup-without "organization_id" k (without "record_hash" (without "prev_hash" r)),
  lookup-without "record_hash" k (without "prev_hash" r),
  lookup-without "prev_hash" k r,
)

abbrev pub or_else : Option Record → Option Record → Option Record
or_else none o = o
or_else (some r) o = some r

abbrev pub when : Bool → Record → Option Record
when b r = if b then some r else none

module _ {Line : Type 0} (io : Lines Line) (trace_id organization_id : String) where
  -- The first match wins: a record at the end is found where there is none before it.
  pub find_first-append :
      (rs : List Record) (r : Record)
      → find_record io false none trace_id organization_id (rs ++ r ∷ [])
        ≡ or_else
            (find_record io false none trace_id organization_id rs)
            (when (is_match io trace_id organization_id r) r)
  unfolding find_record
  find_first-append [] r = refl
  find_first-append (q ∷ rs) r = elim (Bool-cases (is_match io trace_id organization_id q)) [
    | inl found ↦ rw found refl
    | inr other ↦ rw other (find_first-append rs r)
  ]

  -- The last match wins.
  pub find_last-append :
      (found : Option Record) (rs : List Record) (r : Record)
      → find_record io true found trace_id organization_id (rs ++ r ∷ [])
        ≡ or_else
            (when (is_match io trace_id organization_id r) r)
            (find_record io true found trace_id organization_id rs)
  unfolding find_record
  find_last-append found [] r = elim (Bool-cases (is_match io trace_id organization_id r)) [
    | inl yes_it_is ↦ rw yes_it_is refl
    | inr other ↦ rw other refl
  ]
  find_last-append found (q ∷ rs) r = elim (Bool-cases (is_match io trace_id organization_id q)) [
    | inl here ↦ rw here (find_last-append (some q) rs r)
    | inr other ↦ rw other (find_last-append found rs r)
  ]
