-- ===== src/Protocol/StreamId/Trip.antt =====
-- A stream id printed and read again.
use mathlib.Core.List.{append_assoc, append-nil}
use bilbycast_libsrt_rs.Shared.{
  ℕ, ◌≡◌, refl, sym, ap, ◌∙◌, Bool, true, false, not, ◌||◌, List, [], ◌∷◌, ◌++◌, Option, none, some,
  ◌==◌, ==_iff, Text, is_empty, any, All, arith,
}
use bilbycast_libsrt_rs.Protocol.StreamId.{
  StreamIdInfo, blank, comma, equals, split_at_first, split, split_once, strip_prefix, prefix,
  set_char, set_field, read_pairs, parse, pair_text, field_part, extra_parts, parts, join,
  to_stream_id,
}

-- The text has the character.
abbrev pub has : ℕ → Text → Bool
has c text = any (λ x. x == c) text

split_at_first-piece :
    (sep : ℕ) (p rest : Text)
    → has sep p ≡ false
    → split_at_first sep (p ++ sep ∷ rest) ≡ (p, split sep rest)
unfolding split_at_first
split_at_first-piece sep [] rest clean = rw ((==_iff sep sep).1 refl) refl
split_at_first-piece sep (c ∷ p) rest clean =
    let other : (c == sep) ≡ false = ground arith in
    let later = split_at_first-piece sep p rest (ground arith) in rw (later, other) refl

split_at_first-last : (sep : ℕ) (p : Text) → has sep p ≡ false → split_at_first sep p ≡ (p, [])
unfolding split_at_first
split_at_first-last sep [] clean = refl
split_at_first-last sep (c ∷ p) clean =
    let other : (c == sep) ≡ false = ground arith in
    let later = split_at_first-last sep p (ground arith) in rw (later, other) refl

pub split-join :
    (p : Text) (ps : List Text)
    → All (λ q. has comma q ≡ false) (p ∷ ps)
    → split comma (join (p ∷ ps)) ≡ p ∷ ps
split-join p [] clean = rw (split_at_first-last comma p clean.0) refl
split-join p (q ∷ ps) clean =
    rw (split_at_first-piece comma p (join (q ∷ ps)) clean.0)
      (ap (λ l. p ∷ l) (split-join q ps clean.1))

split_once-pair :
    (key value : Text)
    → has equals key ≡ false
    → split_once equals (pair_text (key, value)) ≡ some (key, value)
unfolding split_once
split_once-pair [] value clean = refl
split_once-pair (c ∷ key) value clean =
    let other : (c == equals) ≡ false = ground arith in
    rw (other, split_once-pair key value (ground arith)) refl

pair_text-full : (key value : Text) → is_empty (pair_text (key, value)) ≡ false
pair_text-full [] value = refl
pair_text-full (c ∷ key) value = refl

module _ (trim : Text → Text) where
  -- The part survives the split and the trim.
  abbrev pub Clean : Text → Type 0
  Clean part = (has comma part ≡ false) × (trim part ≡ part)

  read_pairs-append :
      (xs ys : List Text) (info : StreamIdInfo)
      → read_pairs trim (xs ++ ys) info ≡ read_pairs trim ys (read_pairs trim xs info)
  unfolding read_pairs
  read_pairs-append [] ys info = refl
  read_pairs-append (x ∷ xs) ys info = read_pairs-append xs ys _

  -- One pair, kept by the trim, sets its field.
  read_pairs-pair :
      (key value : Text) (pairs : List Text) (info : StreamIdInfo)
      → has equals key ≡ false
      → trim (pair_text (key, value)) ≡ pair_text (key, value)
      → read_pairs trim (pair_text (key, value) ∷ pairs) info
        ≡ read_pairs trim pairs (set_field key value info)
  unfolding read_pairs
  read_pairs-pair key value pairs info no_equals kept =
      rw (kept, pair_text-full key value, split_once-pair key value no_equals) refl

  -- An optional field under a key of one character, by the way the key sets it.
  read_pairs-field :
      (c : ℕ) (o : Option Text) (info : StreamIdInfo) (with_field : Option Text → StreamIdInfo)
      → (c == equals) ≡ false
      → with_field none ≡ info
      → ((value : Text) → set_char c (c ∷ []) value info ≡ with_field (some value))
      → All Clean (field_part c o)
      → read_pairs trim (field_part c o) info ≡ with_field o
  unfolding read_pairs set_field
  read_pairs-field c none info with_field key unset sets clean = sym unset
  read_pairs-field c (some value) info with_field key unset sets clean =
      read_pairs-pair (c ∷ []) value [] info (rw key refl) clean.0.1 ∙ sets value

All-append_inv :
    {A : Type 0} (P : A → Type 0) (xs ys : List A) → All P (xs ++ ys) → All P xs × All P ys
All-append_inv P [] ys all = (tt, all)
All-append_inv P (x ∷ xs) ys all =
    let (front, back) = All-append_inv P xs ys all.1 in ((all.0, front), back)

-- A key that none of the fields has.
abbrev pub is_extra : Text → Bool
is_extra (c ∷ []) = not (c == 114 || c == 109 || c == 115 || c == 116 || c == 117 || c == 104)
is_extra _ = true

-- The keys of the extra pairs are no field's and have no `=`.
abbrev pub ExtraKeys : List (Text × Text) → Type 0
ExtraKeys pairs = All (λ e. (is_extra e.0 ≡ true) × (has equals e.0 ≡ false)) pairs

set_field-extra :
    (key value : Text) (info : StreamIdInfo)
    → is_extra key ≡ true
    → set_field key value info ≡ record info { extra = info.extra ++ (key, value) ∷ [] }
unfolding set_field
set_field-extra [] value info e = refl
set_field-extra (c ∷ []) value info e = ground arith
set_field-extra (c ∷ d ∷ ds) value info e = refl

module _ (trim : Text → Text) where
  read_pairs-extra :
      (pairs : List (Text × Text)) (info : StreamIdInfo)
      → ExtraKeys pairs
      → All (Clean trim) (extra_parts pairs)
      → read_pairs trim (extra_parts pairs) info ≡ record info { extra = info.extra ++ pairs }
  unfolding read_pairs
  read_pairs-extra [] info keys clean =
      ap (λ l. record info { extra = l }) (sym (append-nil info.extra))
  read_pairs-extra ((key, value) ∷ pairs) info keys clean =
      let one = set_field-extra key value info keys.0.0 in
      let info' : StreamIdInfo = record info { extra = info.extra ++ (key, value) ∷ [] } in
      read_pairs-pair trim key value (extra_parts pairs) info keys.0.1 clean.0.1
      ∙ ap (read_pairs trim (extra_parts pairs)) one
      ∙ read_pairs-extra pairs info' keys.1 clean.1
      ∙ ap (λ l. record info { extra = l }) (append_assoc info.extra ((key, value) ∷ []) pairs)

  -- Reading the parts of an info into a blank one gives the info, but for its text.
  read_pairs-parts :
      (info : StreamIdInfo) (text : Text)
      → ExtraKeys info.extra
      → All (Clean trim) (parts info)
      → read_pairs trim (parts info) (blank text) ≡ record info { raw = text }
  unfolding parts
  read_pairs-parts info text keys clean =
      let b : StreamIdInfo = blank text in
      let (c1, k1) = All-append_inv (Clean trim) (field_part 114 info.resource) _ clean in
      let (c2, k2) = All-append_inv (Clean trim) (field_part 109 info.mode) _ k1 in
      let (c3, k3) = All-append_inv (Clean trim) (field_part 115 info.session_id) _ k2 in
      let (c4, k4) = All-append_inv (Clean trim) (field_part 116 info.content_type) _ k3 in
      let (c5, k5) = All-append_inv (Clean trim) (field_part 117 info.user_name) _ k4 in
      let (c6, k6) = All-append_inv (Clean trim) (field_part 104 info.host_name) _ k5 in
      let i1 : StreamIdInfo = record b { resource = info.resource } in
      let i2 : StreamIdInfo = record i1 { mode = info.mode } in
      let i3 : StreamIdInfo = record i2 { session_id = info.session_id } in
      let i4 : StreamIdInfo = record i3 { content_type = info.content_type } in
      let i5 : StreamIdInfo = record i4 { user_name = info.user_name } in
      let i6 : StreamIdInfo = record i5 { host_name = info.host_name } in
      let f1 =
        read_pairs-field trim 114 info.resource b (λ o. record b { resource = o }) refl refl
          (λ v. refl) c1 in
      let f2 =
        read_pairs-field trim 109 info.mode i1 (λ o. record i1 { mode = o }) refl refl (λ v. refl)
          c2 in
      let f3 =
        read_pairs-field trim 115 info.session_id i2 (λ o. record i2 { session_id = o }) refl refl
          (λ v. refl) c3 in
      let f4 =
        read_pairs-field trim 116 info.content_type i3 (λ o. record i3 { content_type = o }) refl
          refl (λ v. refl) c4 in
      let f5 =
        read_pairs-field trim 117 info.user_name i4 (λ o. record i4 { user_name = o }) refl refl
          (λ v. refl) c5 in
      let f6 =
        read_pairs-field trim 104 info.host_name i5 (λ o. record i5 { host_name = o }) refl refl
          (λ v. refl) c6 in
      rw
        (
          read_pairs-append trim (field_part 114 info.resource),
          f1,
          read_pairs-append trim (field_part 109 info.mode),
          f2,
          read_pairs-append trim (field_part 115 info.session_id),
          f3,
          read_pairs-append trim (field_part 116 info.content_type),
          f4,
          read_pairs-append trim (field_part 117 info.user_name),
          f5,
          read_pairs-append trim (field_part 104 info.host_name),
          f6,
        )
        (read_pairs-extra info.extra i6 keys k6)

split-join_parts :
    (ps : List Text)
    → is_empty ps ≡ false
    → All (λ q. has comma q ≡ false) ps
    → split comma (join ps) ≡ ps
split-join_parts [] full clean = cc
split-join_parts (p ∷ ps) full clean = split-join p ps clean

All-first : {A : Type 0} (P Q : A → Type 0) (xs : List A) → All (λ x. P x × Q x) xs → All P xs
All-first P Q [] all = tt
All-first P Q (x ∷ xs) all = (all.0.0, All-first P Q xs all.1)

-- A stream id survives the trip: an info that has some field, whose printed pairs have no comma and no
-- outer white space, and whose extra keys are no field's and have no `=`, is what its printed form reads
-- as, but for the text kept with it.
pub parse-to_stream_id :
    (trim : Text → Text) (info : StreamIdInfo)
    → is_empty (parts info) ≡ false
    → ExtraKeys info.extra
    → All (Clean trim) (parts info)
    → parse trim (to_stream_id info) ≡ record info { raw = to_stream_id info }
unfolding parse to_stream_id strip_prefix
parse-to_stream_id trim info full keys clean =
    let no_commas = All-first (λ q. has comma q ≡ false) (λ q. trim q ≡ q) (parts info) clean in
    rw (full, split-join_parts (parts info) full no_commas)
      (read_pairs-parts trim info (prefix ++ join (parts info)) keys clean)
