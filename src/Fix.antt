-- ===== src/Fix.antt =====
-- The FIX 4.4 codec of mvp/src/fix/parser.h and parser.cpp. A byte is its unsigned value; a
-- `string_view` is the list of its bytes.
pub mod Numbers
pub mod Framing
pub mod Building
pub mod Frames
pub mod Wire
pub mod Messages
pub mod Streaming
pub mod Parsing
pub mod Lookups
pub mod Consumed
use low_latency_hft_matching.Base.{
  ℕ, ◌^◌, ◌-◌, ℤ, pos, List, [], ◌∷◌, Bool, true, false, Option, none, some, ◌==◌, if◌then◌else◌,
  is_empty, is_some, leb, length,
}
use Numbers.{Bytes, from_chars}

abbrev pub soh : ℕ
soh = 1

-- One tag and its value.
pub record Field : Type 0 where
  pub tag : ℕ
  pub value : Bytes

-- The fields of a message in wire order.
abbrev pub Message : Type 0
Message = List Field

-- `Message::get`; the empty view if the tag is not there.
unfoldable pub get : ℕ → Message → Bytes
get tag [] = []
get tag (f ∷ fs) = if f.tag == tag then f.value else get tag fs

unfoldable pub has : ℕ → Message → Bool
has tag [] = false
has tag (f ∷ fs) = if f.tag == tag then true else has tag fs

unfoldable pub get_int : ℕ → ℤ → Message → ℤ
get_int tag def m =
    if is_empty (get tag m) then def else elim (from_chars (get tag m)) [ none ↦ def | some n ↦ n ]

-- The first byte of tag 35, or 0.
unfoldable pub msg_type : Message → ℕ
msg_type m = elim (get 35 m) [ [] ↦ 0 | c ∷ _ ↦ c ]

-- `strtod` stands for the library's function, with `none` where it reads no number.
unfoldable pub get_double {ℓ} : {D : Type ℓ} → (Bytes → Option D) → ℕ → D → Message → D
get_double strtod tag def m =
    if is_empty (get tag m)
    then def
    else if leb 64 (length (get tag m))
    then def
    else elim (strtod (get tag m)) [ none ↦ def | some d ↦ d ]
