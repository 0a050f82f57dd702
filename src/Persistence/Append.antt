-- ===== src/Persistence/Append.antt =====
-- A file of `AuditPersistence` after `_append_chained`.
use text.Mathlib.TextPositions.{eq_refl}
use jamp.Prelude.{
  String, ◌≡◌, refl, Bool, true, false, Option, none, some, List, [], ◌∷◌, ◌++◌, ok, err, ◌>>=◌,
  ◌==◌, arith, ap, sym, subst, ◌∙◌, ok-of-bind,
}
use jamp.Prelude.Dict.{
  lookup, insert, lookup-insert, lookup-insert_self, insert-DistinctKeys, DistinctKeys,
}
use jamp.Canonical.{jstr}
use jamp.Persistence.{
  Record, reread_option, Reread, Lines, Stored, not_json, genesis_hash, record_hash, read_lines,
  read_all_records, File, write_line, verify_from, verify_chain, head_from, head_hash, chained,
  append_chained,
}
use jamp.Persistence.Chain.{
  final_prev, final_started, verify_from-append, head_from-final_prev, final_prev-last,
  record_hash-chained,
}

module _ {Line : Type 0} (io : Lines Line) where
  chained-prev :
      (payload : Record) (prev : String)
      → lookup "prev_hash" (chained io payload prev) ≡ some (jstr prev)
  unfolding chained
  chained-prev payload prev =
      lookup-insert "record_hash" "prev_hash"
        (jstr (record_hash io (insert "prev_hash" (jstr prev) payload)))
        (insert "prev_hash" (jstr prev) payload)
      ∙ lookup-insert_self "prev_hash" (jstr prev) payload

  chained-hash :
      (payload : Record) (prev : String)
      → lookup "record_hash" (chained io payload prev)
        ≡ some (jstr (record_hash io (insert "prev_hash" (jstr prev) payload)))
  unfolding chained
  chained-hash payload prev =
      lookup-insert_self "record_hash"
        (jstr (record_hash io (insert "prev_hash" (jstr prev) payload)))
        (insert "prev_hash" (jstr prev) payload)

  pub chained-other :
      (payload : Record) (prev k : String)
      → ("prev_hash" == k) ≡ false
      → ("record_hash" == k) ≡ false
      → lookup k (chained io payload prev) ≡ lookup k payload
  unfolding chained
  chained-other payload prev k a b = ground (
    arith,
    a,
    b,
    lookup-insert "record_hash" k (jstr (record_hash io (insert "prev_hash" (jstr prev) payload)))
        (insert "prev_hash" (jstr prev) payload),
    lookup-insert "prev_hash" k (jstr prev) payload,
  )

  -- A text that is read again.
  text_back :
      (k s : String) (d r : Record)
      → lookup k r ≡ reread_option io.reread (lookup k d)
      → lookup k d ≡ some (jstr s)
      → lookup k r ≡ some (jstr s)
  text_back k s d r h e = h ∙ ap (λ o. reread_option io.reread o) e ∙ ap some (io.reread-jstr s)

  -- The record that was written, read again: it is linked, and a part of the chain.
  pub record Link (payload : Record) (prev : String) (r : Record) : Type 0 where
    pub back : Reread io.reread (chained io payload prev) r
    pub linked : lookup "prev_hash" r ≡ some (jstr prev)
    pub hashed : lookup "record_hash" r ≡ some (jstr (record_hash io r))

  Reread-Link :
      (payload r : Record) (prev : String)
      → DistinctKeys payload
      → Reread io.reread (chained io payload prev) r
      → Link payload prev r
  Reread-Link payload r prev distinct back = record {
    back = back;
    linked =
        text_back "prev_hash" prev (chained io payload prev) r (back.1 "prev_hash")
          (chained-prev payload prev);
    hashed =
        text_back "record_hash" (record_hash io (insert "prev_hash" (jstr prev) payload))
          (chained io payload prev) r (back.1 "record_hash") (chained-hash payload prev)
        ∙ ap (λ s. some (jstr s)) (sym (record_hash-chained io payload r prev distinct back));
  }

  chained-DistinctKeys :
      (payload : Record) (prev : String)
      → DistinctKeys payload
      → DistinctKeys (chained io payload prev)
  unfolding chained
  chained-DistinctKeys payload prev h =
      let d0 : Record = insert "prev_hash" (jstr prev) payload in
      insert-DistinctKeys "record_hash" (jstr (record_hash io d0)) d0
        (insert-DistinctKeys "prev_hash" (jstr prev) payload h)

  Link-verify_from :
      (payload : Record) (prev : String) (started : Bool) (r : Record)
      → Link payload prev r
      → verify_from io prev started (r ∷ []) ≡ ok tt
  unfolding verify_from
  Link-verify_from payload prev started r l =
      rw (l.linked, l.hashed) (rw (eq_refl prev, eq_refl (record_hash io r)) refl)

  read_lines-append :
      (ls ms : List Line) (rs ss : List Record)
      → read_lines io ls ≡ ok rs
      → read_lines io ms ≡ ok ss
      → read_lines io (ls ++ ms) ≡ ok (rs ++ ss)
  unfolding read_lines
  read_lines-append [] ms rs ss a b = b ∙ ap (λ x. ok (x ++ ss)) (none_read a)
    where
      none_read : ◌≡◌ {A = Stored (List Record)} (ok []) (ok rs) → [] ≡ rs
      none_read h = cc
  read_lines-append (l ∷ ls) ms rs ss a b =
      cases (io.blank l) (io.loads l) (read_lines io ls) (read_lines io (ls ++ ms)) a
        (λ qs. λ h. read_lines-append ls ms qs ss h b)
    where
      cons_read :
          (r : Record) (qs : List Record)
          → ◌≡◌ {A = Stored (List Record)} (ok (r ∷ qs)) (ok rs)
          → r ∷ qs ≡ rs
      cons_read r qs h = cc

      cases :
          (k : Bool) (o : Option Record) (m n : Stored (List Record))
          → elim k as (λ _. Stored (List Record)) [
            | true ↦ m
            | false ↦ elim o [ none ↦ err not_json | some r ↦ m >>= λ rs. ok (r ∷ rs) ]
          ]
            ≡ ok rs
          → ((qs : List Record) → m ≡ ok qs → n ≡ ok (qs ++ ss))
          → elim k as (λ _. Stored (List Record)) [
            | true ↦ n
            | false ↦ elim o [ none ↦ err not_json | some r ↦ n >>= λ rs. ok (r ∷ rs) ]
          ]
            ≡ ok (rs ++ ss)
      cases true o m n h rest = rest rs h
      cases false none m n h rest = cc
      cases false (some r) (err e) n h rest = cc
      cases false (some r) (ok qs) n h rest =
          rw (rest qs refl) (ap (λ x. ok (x ++ ss)) (cons_read r qs h))

  -- An empty text behind the last newline is no line.
  read_lines-ended : (ls : List Line) → read_lines io (ls ++ io.empty ∷ []) ≡ read_lines io ls
  unfolding read_lines
  read_lines-ended [] = rw (io.blank-empty, read_lines) refl
  read_lines-ended (l ∷ ls) = cases (io.blank l) (io.loads l) (read_lines-ended ls)
    where
      cases :
          (k : Bool) (o : Option Record) {m n : Stored (List Record)}
          → m ≡ n
          → elim k as (λ _. Stored (List Record)) [
            | true ↦ m
            | false ↦ elim o [ none ↦ err not_json | some r ↦ m >>= λ rs. ok (r ∷ rs) ]
          ]
            ≡ elim k as (λ _. Stored (List Record)) [
              | true ↦ n
              | false ↦ elim o [ none ↦ err not_json | some r ↦ n >>= λ rs. ok (r ∷ rs) ]
            ]
      cases true o h = h
      cases false none h = refl
      cases false (some r) h = ap (λ m. m >>= λ rs. ok (r ∷ rs)) h

  -- The file before and after.
  pub record Appended (file after : File Line) (payload : Record) : Type 0 where
    pub records : List Record
    pub prev : String
    pub new : Record
    pub before_read : read_all_records io file ≡ ok records
    pub before_head : head_hash io file ≡ ok prev
    pub verified : verify_chain io records ≡ ok tt
    pub after_read : read_all_records io after ≡ ok (records ++ new ∷ [])
    pub after_head : head_hash io after ≡ ok (record_hash io new)
    pub still_verified : verify_chain io (records ++ new ∷ []) ≡ ok tt
    pub link : Link payload prev new
    pub ended : after.rest ≡ io.empty

  written-read :
      (d : Record)
      → DistinctKeys d
      → (r : Record) × (read_lines io (io.dumps d ∷ []) ≡ ok (r ∷ [])) × Reread io.reread d r
  unfolding read_lines
  written-read d distinct =
      let (r, e, back) = io.loads-dumps d distinct in
      (r, rw (io.blank-dumps d, e, read_lines) refl, back)

  pub head_hash-records :
      (file : File Line) (rs : List Record)
      → read_all_records io file ≡ ok rs
      → verify_chain io rs ≡ ok tt
      → head_hash io file ≡ ok (head_from io genesis_hash rs)
  unfolding head_hash
  head_hash-records file rs a b = rw (a, b) refl

  pub head_hash-parts :
      (file : File Line) (prev : String)
      → head_hash io file ≡ ok prev
      → (rs : List Record) × (read_all_records io file ≡ ok rs) × (verify_chain io rs ≡ ok tt)
  unfolding head_hash
  head_hash-parts file prev e =
      let (rs, read, e1) = ok-of-bind (read_all_records io file) _ e in
      let (u, verified, e2) = ok-of-bind (verify_chain io rs) _ e1 in (rs, read, verified)

  -- The records of a file that ends with a newline, and of the same file with one more line.
  write_line-read :
      (file : File Line) (l : Line) (rs : List Record) (new : Record)
      → file.rest ≡ io.empty
      → read_all_records io file ≡ ok rs
      → read_lines io (l ∷ []) ≡ ok (new ∷ [])
      → read_all_records io (write_line io file l) ≡ ok (rs ++ new ∷ [])
  unfolding read_all_records
  write_line-read file l rs new ended read one =
      let before : read_lines io file.complete ≡ ok rs =
        sym (read_lines-ended file.complete)
        ∙ ap (λ x. read_lines io (file.complete ++ x ∷ [])) (sym ended)
        ∙ read in
      let alone : io.glue file.rest l ≡ l = ap (λ x. io.glue x l) ended ∙ io.glue-empty l in
      read_lines-ended (file.complete ++ io.glue file.rest l ∷ [])
      ∙ read_lines-append file.complete (io.glue file.rest l ∷ []) rs (new ∷ []) before
          (ap (λ x. read_lines io (x ∷ [])) alone ∙ one)

  -- `_append_chained` succeeds on a file that verifies and has a newline at its end, for a payload whose
  -- keys differ. The new record takes the
  -- head of the file as `prev_hash`; the file afterwards is read as the records before and the new one, verifies,
  -- has the new `record_hash` as head, and has a newline at its end.
  pub append_chained-Appended :
      (file : File Line) (payload : Record) (rs : List Record)
      → DistinctKeys payload
      → file.rest ≡ io.empty
      → read_all_records io file ≡ ok rs
      → verify_chain io rs ≡ ok tt
      → (after : File Line) × (append_chained io file payload ≡ ok after)
        × Appended file after payload
  unfolding append_chained verify_chain
  append_chained-Appended file payload rs distinct ended read verified =
      let prev = head_from io genesis_hash rs in
      let head = head_hash-records file rs read verified in
      let (new, new_read, back) =
        written-read (chained io payload prev) (chained-DistinctKeys payload prev distinct) in
      let link = Reread-Link payload new prev distinct back in
      let is_final : final_prev io genesis_hash rs ≡ prev =
        sym (head_from-final_prev io genesis_hash false rs verified) in
      let again : verify_chain io (rs ++ new ∷ []) ≡ ok tt =
        verify_from-append io genesis_hash false rs (new ∷ []) verified
        ∙ subst (λ p. verify_from io p (final_started io false rs) (new ∷ []) ≡ ok tt)
            (sym is_final) (Link-verify_from payload prev (final_started io false rs) new link) in
      let after = write_line io file (io.dumps (chained io payload prev)) in
      let read_after =
        write_line-read file (io.dumps (chained io payload prev)) rs new ended read new_read in
      (
        after,
        rw head refl,
        record {
          records = rs;
          prev = prev;
          new = new;
          before_read = read;
          before_head = head;
          verified = verified;
          after_read = read_after;
          after_head =
              head_hash-records after (rs ++ new ∷ []) read_after again
              ∙ ap ok (
                  head_from-final_prev io genesis_hash false (rs ++ new ∷ []) again
                  ∙ final_prev-last io genesis_hash rs new (rw (link.linked) refl));
          still_verified = again;
          link = link;
          ended = refl;
        },
      )
