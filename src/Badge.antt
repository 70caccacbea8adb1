-- ===== src/Badge.antt =====
-- handlers/badge: a reader of tags on a serial line, and who was seen when. What the serial line gives is
-- an argument, read by read; so is the writing of a time as JSON.
pub mod Framing
use Prim.Native.String.{◌++◌ as append}
use chik.Controller.{done, failed}
use chik.Prelude.{
  Bool, Eq, List, Option, String, [], get_elem?, if◌then◌else◌, length, nat_eq, none, some,
  string_eq, suc, true, zero, ℕ, ◌%◌, ◌/◌, ◌==◌, ◌∷◌,
}
use chik.Controller.{Step}
use chik.Json.{Value}
use chik.Prelude.Dict.{Dict, insert, lookup}
use chik.StatusHolder.{StatusHolder, edit}
use chik.Types.Time.{TimeIndication}

-- handlers/badge/rfid/types.go.
pub record MiFareTag : Type 0 where
  pub sak : List ℕ
  pub atqa : List ℕ
  pub id : List ℕ

-- What a `Read` returns: the bytes that it filled in, and whether it returned an error.
pub record Read : Type 0 where
  pub bytes : List ℕ
  pub has_error : Bool

-- How a `Decode` ends: with a tag, with io.EOF, with the error of a read, with the error for incomplete
-- data; or it waits for a read that does not return.
pub data Decoded : Type 0 where
  a_tag : MiFareTag → Decoded
  end_of_file : Decoded
  read_error : Decoded
  incomplete_data : Decoded
  waits : Decoded

abbrev pub terminator_tag : ℕ
terminator_tag = 0xfe

-- The read of a field, and what follows it.
abbrev pub read_field :
    ℕ → (List ℕ → List Read → Decoded × List Read) → List Read → Decoded × List Read
read_field size more [] = (waits, [])
read_field size more (r ∷ reads) =
    if length r.bytes == size
    then (if r.has_error then (read_error, reads) else more r.bytes reads)
    else (incomplete_data, reads)

unfoldable pub read_tag : List Read → Decoded × List Read
read_tag = read_field 1 λ sak. read_field 1 λ unknown_field.
    read_field 2
      λ atqa. read_field 4 λ id reads. (a_tag (record { sak = sak; atqa = atqa; id = id }), reads)

-- `ICM522.Decode`, over the reads to come; with those that it leaves.
unfoldable pub decode : List Read → Decoded × List Read
unfolding read_tag
decode [] = (waits, [])
decode (r ∷ reads) =
    let later = decode reads in
    elim r.bytes [
      | [] ↦ (end_of_file, reads)
      | b ∷ more ↦ elim more [
        | [] ↦
            if r.has_error
            then (read_error, reads)
            else if b == terminator_tag
            then read_tag reads
            else later
        | c ∷ rest ↦ (end_of_file, reads)
      ]
    ]

-- The loop that `Setup` starts, for a number of rounds: the tags that it sends. It ends at io.EOF and goes
-- on after any other error.
unfoldable pub read_tags : ℕ → List Read → List MiFareTag
unfolding decode
read_tags zero reads = []
read_tags (suc rounds) reads =
    let (result, rest) = decode reads in
    let later = read_tags rounds rest in
    elim result [
      | a_tag t ↦ t ∷ later
      | end_of_file ↦ []
      | read_error ↦ later
      | incomplete_data ↦ later
      | waits ↦ []
    ]

-- hex.EncodeToString.
abbrev hex_digits : List String
hex_digits =
    "0" ∷ "1" ∷ "2" ∷ "3" ∷ "4" ∷ "5" ∷ "6" ∷ "7" ∷ "8" ∷ "9" ∷ "a" ∷ "b" ∷ "c" ∷ "d" ∷ "e" ∷ "f"
    ∷ []

abbrev hex_digit : ℕ → String
hex_digit n = elim (get_elem? hex_digits n) [ none ↦ "" | some s ↦ s ]

unfoldable pub encode_to_string : List ℕ → String
encode_to_string [] = ""
encode_to_string (b ∷ bytes) =
    append (hex_digit (b / 16)) (append (hex_digit (b % 16)) (encode_to_string bytes))

-- When an identity was seen last.
abbrev pub BadgeStatus : Type 0
BadgeStatus = Dict String TimeIndication

pub record TagReader : Type 0 where
  pub identities : Dict String String
  pub status : StatusHolder BadgeStatus

module _ {N : Type 0} ⦃keys : Eq BadgeStatus⦄ (to_value : BadgeStatus → Value N) where
  abbrev pub seen : String → TimeIndication → Option BadgeStatus → BadgeStatus
  seen identity now none = (identity, now) ∷ []
  seen identity now (some s) = insert identity now s

  abbrev pub identity_of : MiFareTag → TagReader → String
  identity_of t r = elim (lookup (encode_to_string t.id) r.identities) [
    | none ↦ ""
    | some identity ↦ identity
  ]

  -- `HandleChannelEvent`; `none` is an event of another type. The status is always published.
  unfoldable pub handle_channel_event :
      TimeIndication → Option MiFareTag → TagReader → Step N TagReader
  unfolding encode_to_string lookup insert edit
  handle_channel_event now none r = record { state = r; sent = []; exit = failed }
  handle_channel_event now (some t) r =
      let identity = identity_of t r in
      let (status, sent) = edit to_value (λ current. (seen identity now current, true)) r.status in
      if identity == ""
      then record { state = r; sent = []; exit = done }
      else record { state = record r { status = status }; sent = sent; exit = done }
