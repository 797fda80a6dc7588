-- ===== src/Protocol/Fec/Trip.antt =====
-- A packet filter configuration printed and read again.
use bilbycast_libsrt_rs.Shared.{
  ℕ, ◌≤◌, ◌<◌, ◌^◌, ◌≡◌, refl, ap, ◌∙◌, Bool, true, false, ◌&&◌, List, [], ◌∷◌, ◌++◌, some, leb,
  Text, codes, is_empty, All, arith, decimal, all_digits, decimal-all_digits, parse_usize-decimal,
  parse_i64-decimal,
}
use bilbycast_libsrt_rs.Protocol.StreamId.{comma, split, split_once, join}
use bilbycast_libsrt_rs.Protocol.StreamId.Trip.{has, split-join}
use bilbycast_libsrt_rs.Protocol.Fec.{
  FecConfig, FecLayout, ArqMode, default_fec, ok, colon, same_text, set_cols, set_rows, set_param,
  read_param, read_trimmed, read_params, read_rest, read_head, parse_trimmed, parse_fec,
  layout_text, arq_text, print_fec, unsigned_abs,
}

-- Every character is printed and no white space (ASCII 33 to 126).
unfoldable pub printable : Text → Bool
printable [] = true
printable (c ∷ s) = (leb 33 c && leb c 126) && printable s

printable-append :
    (s t : Text) → printable s ≡ true → printable t ≡ true → printable (s ++ t) ≡ true
unfolding printable
printable-append [] t hs ht = ht
printable-append (c ∷ s) t hs ht = ground (arith, printable-append s t)

digits-printable : (s : Text) → all_digits s ≡ true → printable s ≡ true
unfolding printable all_digits
digits-printable [] h = refl
digits-printable (c ∷ s) h = ground (arith, digits-printable s)

digits-has :
    (sep : ℕ) (s : Text)
    → leb 48 sep && leb sep 57 ≡ false
    → all_digits s ≡ true
    → has sep s ≡ false
unfolding all_digits
digits-has sep [] other h = refl
digits-has sep (c ∷ s) other h = ground (arith, digits-has sep s other)

layout_text-facts :
    (l : FecLayout) → (printable (layout_text l) ≡ true) × (has comma (layout_text l) ≡ false)
unfolding printable
layout_text-facts FecLayout.even = (refl, refl)
layout_text-facts FecLayout.staircase = (refl, refl)

arq_text-facts : (a : ArqMode) → (printable (arq_text a) ≡ true) × (has comma (arq_text a) ≡ false)
unfolding printable
arq_text-facts ArqMode.always = (refl, refl)
arq_text-facts ArqMode.on_req = (refl, refl)
arq_text-facts ArqMode.never = (refl, refl)

-- The printed parameters.
abbrev params_after_rows : FecConfig → List Text
params_after_rows c =
    (codes "layout:" ++ layout_text c.layout) ∷ (codes "arq:" ++ arq_text c.arq) ∷ []

abbrev params_after_cols : FecConfig → List Text
params_after_cols c = (codes "rows:" ++ decimal c.rows) ∷ params_after_rows c

abbrev params : FecConfig → List Text
params c = (codes "cols:" ++ decimal c.cols) ∷ params_after_cols c

print_fec-params : (c : FecConfig) → print_fec c ≡ codes "fec" ++ comma ∷ join (params c)
unfolding print_fec
print_fec-params c = refl

params-clean : (c : FecConfig) → All (λ p. has comma p ≡ false) (params c)
params-clean c = (
  digits-has comma (decimal c.cols) refl (decimal-all_digits c.cols),
  (
    digits-has comma (decimal c.rows) refl (decimal-all_digits c.rows),
    ((layout_text-facts c.layout).1, ((arq_text-facts c.arq).1, tt)),
  ),
)

module _ (trim : Text → Text) (trims : (t : Text) → printable t ≡ true → trim t ≡ t) where
  trim-decimal : (n : ℕ) → trim (decimal n) ≡ decimal n
  trim-decimal n = trims (decimal n) (digits-printable (decimal n) (decimal-all_digits n))

  -- A parameter that the trim keeps, read.
  read_params-step :
      (key value : Text) (rest : List Text) (c c' : FecConfig)
      → printable (key ++ colon ∷ value) ≡ true
      → split_once colon (key ++ colon ∷ value) ≡ some (key, value)
      → is_empty (key ++ colon ∷ value) ≡ false
      → set_param (trim key) (trim value) c ≡ ok c'
      → read_params trim ((key ++ colon ∷ value) ∷ rest) c ≡ read_params trim rest c'
  unfolding read_params read_trimmed read_param
  read_params-step key value rest c c' plain split full set =
      rw
        (
          read_params,
          trims (key ++ colon ∷ value) plain,
          read_trimmed,
          full,
          split,
          read_param,
          set,
        )
        refl

  set-cols :
      (n : ℕ) (c : FecConfig)
      → 1 ≤ n
      → n < 2 ^ 64
      → set_param (trim (codes "cols")) (trim (decimal n)) c ≡ ok (record c { cols = n })
  unfolding set_param set_cols same_text printable
  set-cols n c positive fits =
      rw (trims (codes "cols") refl, trim-decimal n, set_param, parse_usize-decimal n fits)
        (ground arith)

  set-rows :
      (n : ℕ) (c : FecConfig)
      → 1 ≤ n
      → n < 2 ^ 63
      → set_param (trim (codes "rows")) (trim (decimal n)) c ≡ ok (record c { rows = n })
  unfolding set_param set_rows same_text printable unsigned_abs
  set-rows n c positive fits =
      rw (trims (codes "rows") refl, trim-decimal n, set_param, parse_i64-decimal n fits)
        (ground arith)

  set-layout :
      (l : FecLayout) (c : FecConfig)
      → set_param (trim (codes "layout")) (trim (layout_text l)) c ≡ ok (record c { layout = l })
  unfolding set_param same_text printable
  set-layout FecLayout.even c = rw (trims (codes "layout") refl, trims (codes "even") refl) refl
  set-layout FecLayout.staircase c =
      rw (trims (codes "layout") refl, trims (codes "staircase") refl) refl

  set-arq :
      (a : ArqMode) (c : FecConfig)
      → set_param (trim (codes "arq")) (trim (arq_text a)) c ≡ ok (record c { arq = a })
  unfolding set_param same_text printable
  set-arq ArqMode.always c = rw (trims (codes "arq") refl, trims (codes "always") refl) refl
  set-arq ArqMode.on_req c = rw (trims (codes "arq") refl, trims (codes "onreq") refl) refl
  set-arq ArqMode.never c = rw (trims (codes "arq") refl, trims (codes "never") refl) refl

  read_params-params :
      (c : FecConfig)
      → 1 ≤ c.cols
      → c.cols < 2 ^ 64
      → 1 ≤ c.rows
      → c.rows < 2 ^ 63
      → read_params trim (params c) default_fec ≡ ok c
  unfolding read_params printable split_once
  read_params-params c some_cols cols_fit some_rows rows_fit =
      let c1 : FecConfig = record default_fec { cols = c.cols } in
      let c2 : FecConfig = record c1 { rows = c.rows } in
      let c3 : FecConfig = record c2 { layout = c.layout } in
      let plain_cols = digits-printable (decimal c.cols) (decimal-all_digits c.cols) in
      let plain_rows = digits-printable (decimal c.rows) (decimal-all_digits c.rows) in
      read_params-step (codes "cols") (decimal c.cols) (params_after_cols c) default_fec c1
        plain_cols refl refl (set-cols c.cols default_fec some_cols cols_fit)
      ∙ read_params-step (codes "rows") (decimal c.rows) (params_after_rows c) c1 c2 plain_rows refl
          refl (set-rows c.rows c1 some_rows rows_fit)
      ∙ read_params-step (codes "layout") (layout_text c.layout)
          ((codes "arq:" ++ arq_text c.arq) ∷ []) c2 c3 (layout_text-facts c.layout).0 refl refl
          (set-layout c.layout c2)
      ∙ read_params-step (codes "arq") (arq_text c.arq) [] c3 c (arq_text-facts c.arq).0 refl refl
          (set-arq c.arq c3)

  print_fec-printable : (c : FecConfig) → printable (print_fec c) ≡ true
  unfolding print_fec printable
  print_fec-printable c =
      let plain_cols = digits-printable (decimal c.cols) (decimal-all_digits c.cols) in
      let plain_rows = digits-printable (decimal c.rows) (decimal-all_digits c.rows) in
      let plain_layout = (layout_text-facts c.layout).0 in
      printable-append (decimal c.cols) _ plain_cols (
        printable-append (decimal c.rows) _ plain_rows
          (printable-append (layout_text c.layout) _ plain_layout (arq_text-facts c.arq).0))

  -- A packet filter configuration survives the trip, for a `trim` that keeps a text of printed ASCII
  -- characters: one with 1 to 2^64 - 1 columns and 1 to 2^63 - 1 rows is what its printed form reads as.
  pub parse_fec-print_fec :
      (c : FecConfig)
      → 1 ≤ c.cols
      → c.cols < 2 ^ 64
      → 1 ≤ c.rows
      → c.rows < 2 ^ 63
      → parse_fec trim (print_fec c) ≡ ok c
  unfolding parse_fec parse_trimmed read_head read_rest same_text split_once printable print_fec
  parse_fec-print_fec c some_cols cols_fit some_rows rows_fit =
      let pieces =
        split-join (codes "cols:" ++ decimal c.cols) (params_after_cols c) (params-clean c) in
      let read = read_params-params c some_cols cols_fit some_rows rows_fit in
      rw (parse_fec, trims (print_fec c) (print_fec-printable c), trims (codes "fec") refl)
        (ap (λ ps. read_params trim ps default_fec) pieces ∙ read)
