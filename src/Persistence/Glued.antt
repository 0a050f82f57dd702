-- ===== src/Persistence/Glued.antt =====
-- `_append_chained` on a file whose last line has no newline.
use jamp.Prelude.{
  String, ◌≡◌, refl, Bool, true, false, Option, none, some, List, [], ◌∷◌, ◌++◌, ok, err, ◌>>=◌,
  ◌∙◌,
}
use jamp.Prelude.Text.{is_blank}
use jamp.Persistence.{
  Record, Lines, File, Stored, not_json, genesis_hash, read_lines, read_all_records, verify_chain,
  head_from, head_hash, chained, write_line, append_chained, read_chained_by_id,
}
use jamp.Persistence.Append.{head_hash-records}

module _ {Line : Type 0} (io : Lines Line) where
  -- A line that cannot be read, behind lines that can.
  read_lines-bad :
      (ls : List Line) (l k bad : Line) (rs : List Record)
      → io.blank bad ≡ false
      → io.loads bad ≡ none
      → read_lines io (ls ++ l ∷ []) ≡ ok rs
      → read_lines io ((ls ++ bad ∷ []) ++ k ∷ []) ≡ err not_json
  unfolding read_lines
  read_lines-bad [] l k bad rs b n h = rw (b, read_lines) (rw n refl)
  read_lines-bad (x ∷ ls) l k bad rs b n h =
      cases (io.blank x) (io.loads x) (read_lines io (ls ++ l ∷ []))
        (read_lines io ((ls ++ bad ∷ []) ++ k ∷ [])) h
        (λ qs. λ e. read_lines-bad ls l k bad qs b n e)
    where
      cases :
          (c : Bool) (o : Option Record) (m w : Stored (List Record))
          → elim c as (λ _. Stored (List Record)) [
            | true ↦ m
            | false ↦ elim o [ none ↦ err not_json | some r ↦ m >>= λ rs. ok (r ∷ rs) ]
          ]
            ≡ ok rs
          → ((qs : List Record) → m ≡ ok qs → w ≡ err not_json)
          → elim c as (λ _. Stored (List Record)) [
            | true ↦ w
            | false ↦ elim o [ none ↦ err not_json | some r ↦ w >>= λ rs. ok (r ∷ rs) ]
          ]
            ≡ err not_json
      cases true o m w h bad_rest = bad_rest rs h
      cases false none m w h bad_rest = refl
      cases false (some r) (ok qs) w h bad_rest = rw (bad_rest qs refl) refl
      cases false (some r) (err e) w h bad_rest = cc

  -- A file that verifies, and ends with a record and no newline, is spoilt by an append: the append returns, and
  -- every read of the file afterwards, by whatever id and whatever organization that is not blank, raises what
  -- `json.loads` raises, and so does the next append.
  pub append_chained-spoils :
      (file : File Line) (payload last : Record) (rs : List Record)
      → io.blank file.rest ≡ false
      → io.loads file.rest ≡ some last
      → read_all_records io file ≡ ok rs
      → verify_chain io rs ≡ ok tt
      → (trace_id organization_id : String) (last_wins : Bool) → is_blank organization_id ≡ false
      → (after : File Line) × (append_chained io file payload ≡ ok after)
        × (read_chained_by_id io after trace_id organization_id last_wins ≡ err not_json)
        × (append_chained io after payload ≡ err not_json)
  unfolding append_chained read_chained_by_id read_all_records head_hash
  append_chained-spoils file payload last rs full parsed read verified trace_id organization_id
        last_wins known =
      let line = io.dumps (chained io payload (head_from io genesis_hash rs)) in
      let glued = io.glue file.rest line in
      let spoilt : read_all_records io (write_line io file line) ≡ err not_json =
        read_lines-bad file.complete file.rest io.empty glued rs
          (io.blank-glue file.rest line ∙ rw full refl)
          (io.loads-glue file.rest last (chained io payload (head_from io genesis_hash rs)) parsed)
          read in
      (
        write_line io file line,
        rw (head_hash-records io file rs read verified) refl,
        rw known (rw spoilt refl),
        rw spoilt refl,
      )
