-- ===== src/Protocol/Fec.antt =====
-- srt-protocol/src/fec.rs: the packet filter configuration, read (`FecConfig::parse`) and printed. `trim`
-- is std's, a parameter.
pub mod Trip
pub mod Positive
use bilbycast_libsrt_rs.Shared.{
  ℕ, suc, ℤ, pos, negsuc, Bool, true, false, ◌&&◌, List, [], ◌∷◌, ◌++◌, Option, none, some, ◌==◌,
  if◌then◌else◌, Text, codes, is_empty, decimal, parse_usize, parse_i64,
}
use bilbycast_libsrt_rs.Protocol.StreamId.{comma, split, split_once}

pub data FecLayout : Type 0 where
  even staircase : FecLayout

pub data ArqMode : Type 0 where
  always on_req never : ArqMode

pub record FecConfig : Type 0 where
  pub cols : ℕ
  pub rows : ℕ
  pub layout : FecLayout
  pub arq : ArqMode

unfoldable pub default_fec : FecConfig
default_fec = record { cols = 10; rows = 1; layout = FecLayout.staircase; arq = ArqMode.on_req }

-- The messages of `parse`, by what they say and the text they quote.
pub data FecError : Type 0 where
  empty_config zero_cols zero_rows : FecError
  not_fec invalid_parameter invalid_cols invalid_rows invalid_layout invalid_arq : Text → FecError

pub data Parsed : Type 0 where
  ok : FecConfig → Parsed
  err : FecError → Parsed

abbrev pub colon : ℕ
colon = 58

-- `==` of two strings.
unfoldable pub same_text : Text → Text → Bool
same_text [] [] = true
same_text (a ∷ as_) (b ∷ bs) = a == b && same_text as_ bs
same_text _ _ = false

-- `i64::unsigned_abs`
unfoldable pub unsigned_abs : ℤ → ℕ
unsigned_abs (pos n) = n
unsigned_abs (negsuc n) = suc n

unfoldable pub set_cols : Text → FecConfig → Option ℕ → Parsed
set_cols value config none = err (invalid_cols value)
set_cols value config (some n) = if n == 0 then err zero_cols else ok (record config { cols = n })

unfoldable pub set_rows : Text → FecConfig → Option ℤ → Parsed
set_rows value config none = err (invalid_rows value)
set_rows value config (some raw) =
    if unsigned_abs raw == 0 then err zero_rows else ok (record config { rows = unsigned_abs raw })

-- The arms of the match on the key; an unknown key is passed over.
unfoldable pub set_param : (key value : Text) → FecConfig → Parsed
set_param key value config =
    if same_text key (codes "cols")
    then set_cols value config (parse_usize value)
    else if same_text key (codes "rows")
    then set_rows value config (parse_i64 value)
    else if same_text key (codes "layout")
    then (if same_text value (codes "even")
        then ok (record config { layout = FecLayout.even })
        else if same_text value (codes "staircase")
        then ok (record config { layout = FecLayout.staircase })
        else err (invalid_layout value))
    else if same_text key (codes "arq")
    then (if same_text value (codes "always")
        then ok (record config { arq = ArqMode.always })
        else if same_text value (codes "onreq")
        then ok (record config { arq = ArqMode.on_req })
        else if same_text value (codes "never")
        then ok (record config { arq = ArqMode.never })
        else err (invalid_arq value))
    else ok config

-- `splitn(2, ',')`: the head, and what follows the first comma, if there is one.
abbrev pub head_and_rest : Text → Option (Text × Text) → Text × Option Text
head_and_rest whole none = (whole, none)
head_and_rest whole (some (before, after)) = (before, some after)

module _ (trim : Text → Text) where
  -- A parameter split at its first colon.
  unfoldable pub read_param : (param : Text) → Option (Text × Text) → FecConfig → Parsed
  read_param param none config = err (invalid_parameter param)
  read_param param (some (key, value)) config = set_param (trim key) (trim value) config

  -- The body of the loop; an empty parameter is passed over.
  unfoldable pub read_trimmed : (param : Text) → FecConfig → Parsed
  read_trimmed param config =
      if is_empty param then ok config else read_param param (split_once colon param) config

  -- `?` on one parameter, and the rest of the loop.
  unfoldable pub read_params : List Text → FecConfig → Parsed
  read_params [] config = ok config
  read_params (param ∷ params) config = elim (read_trimmed (trim param) config) [
    | ok config' ↦ read_params params config'
    | err e ↦ err e
  ]

  unfoldable pub read_rest : Option Text → Parsed
  read_rest none = ok default_fec
  read_rest (some rest) = read_params (split comma rest) default_fec

  unfoldable pub read_head : Text × Option Text → Parsed
  read_head (head, rest) =
      if same_text (trim head) (codes "fec") then read_rest rest else err (not_fec head)

  unfoldable pub parse_trimmed : Text → Parsed
  parse_trimmed trimmed =
      if is_empty trimmed
      then err empty_config
      else read_head (head_and_rest trimmed (split_once comma trimmed))

  unfoldable pub parse_fec : Text → Parsed
  parse_fec config_str = parse_trimmed (trim config_str)

abbrev pub layout_text : FecLayout → Text
layout_text FecLayout.even = codes "even"
layout_text FecLayout.staircase = codes "staircase"

abbrev pub arq_text : ArqMode → Text
arq_text ArqMode.always = codes "always"
arq_text ArqMode.on_req = codes "onreq"
arq_text ArqMode.never = codes "never"

-- `write!(f, "fec,cols:{},rows:{},layout:{},arq:{}", ...)`
unfoldable pub print_fec : FecConfig → Text
print_fec c =
    codes "fec,cols:"
    ++ (decimal c.cols
        ++ (codes ",rows:"
            ++ (decimal c.rows
                ++ (codes ",layout:"
                    ++ (layout_text c.layout ++ (codes ",arq:" ++ arq_text c.arq))))))
