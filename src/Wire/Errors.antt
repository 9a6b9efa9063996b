-- ===== src/Wire/Errors.antt =====
-- pkg/mqtt5/wire/errors.go, and the results of the functions that may fail. The text of the
-- messages of `tooLarge` and `unsupportedVersion` carries no numbers here.
use sky_tree.Common.{ℕ, String, Bool, true, false, Option, none, some, ◌≡◌, refl}
use sky_tree.Mqtt5.PacketTypes
use sky_tree.Mqtt5.PacketTypes.{PacketType}

pub data ErrorKind : Type 0 where
  malformed_packet protocol_error packet_too_large unsupported_protocol_version : ErrorKind
  implementation_error : ErrorKind

-- What io.ReadFull reports.
pub data IoError : Type 0 where
  eof unexpected_eof : IoError

pub record WireError : Type 0 where
  pub kind : ErrorKind
  pub packet : PacketType
  pub field : String
  pub reason : ℕ
  pub message : String
  pub packet_size : ℕ
  pub max_packet_size : ℕ
  pub cause : Option IoError

-- The error of a Go function: a `*WireError` or an error of the reader. `out_of_fuel` is no error
-- of the program: a loop of the model that runs out of rounds returns it.
pub data Error : Type 0 where
  wire : WireError → Error
  io : IoError → Error
  out_of_fuel : Error

pub data Result {ℓ} (A : Type ℓ) : Type ℓ where
  ok : A → Result A
  err : Error → Result A

-- `if bad { return e }`.
abbrev pub reject : Bool → Error → Result (Unit {0})
reject bad e = elim bad [ true ↦ err e | false ↦ ok tt ]

-- `if err != nil { return nil, err }` after a call.
infixl 10 ◌>>=◌
abbrev pub ◌>>=◌ {ℓ κ} : {V : Type ℓ} {W : Type κ} → Result V → (V → Result W) → Result W
err failure >>= rest = err failure
ok value >>= rest = rest value

infixl 10 ◌>>◌
abbrev pub ◌>>◌ {κ} : {W : Type κ} → Result (Unit {0}) → Result W → Result W
check >> rest = check >>= (λ _. rest)

pub >>=-eq-ok {ℓ κ} :
    {V : Type ℓ} {W : Type κ} (step : Result V) (rest : V → Result W) {w : W}
    → (step >>= rest) ≡ ok w
    → (v : V) × (step ≡ ok v) × (rest v ≡ ok w)
>>=-eq-ok (err failure) rest accepted = cc
>>=-eq-ok (ok value) rest accepted = (value, refl, accepted)

pub reject-eq-ok {ℓ} :
    {B : Type ℓ} (t : Bool) (e : Error) (k : Result B) {b : B}
    → (reject t e >> k) ≡ ok b
    → (t ≡ false) × (k ≡ ok b)
reject-eq-ok true e k h = cc
reject-eq-ok false e k h = (refl, h)

-- The reason code of an error of each kind.
unfoldable pub reason_of : ErrorKind → ℕ
reason_of packet_too_large = 0x95
reason_of unsupported_protocol_version = 0x84
reason_of protocol_error = 0x82
reason_of malformed_packet = 0x81
reason_of implementation_error = 0x83

unfoldable pub wire_error : ErrorKind → PacketType → String → String → Option IoError → WireError
unfolding reason_of
wire_error kind packet field message cause = record {
  kind = kind;
  packet = packet;
  field = field;
  reason = reason_of kind;
  message = message;
  packet_size = 0;
  max_packet_size = 0;
  cause = cause;
}

unfoldable pub malformed : PacketType → String → String → Error
unfolding wire_error
malformed packet field message = wire (wire_error malformed_packet packet field message none)

unfoldable pub implementation : PacketType → String → String → Error
unfolding wire_error
implementation packet field message =
    wire (wire_error implementation_error packet field message none)

unfoldable pub too_large : PacketType → ℕ → ℕ → Error
unfolding wire_error
too_large packet size max =
    wire
      (record (wire_error packet_too_large packet "remaining length" "packet size exceeds maximum"
        none) { packet_size = size; max_packet_size = max })

unfoldable pub unsupported_version : Error
unfolding wire_error
unsupported_version = wire (
    wire_error unsupported_protocol_version PacketTypes.connect "protocol version"
      "unsupported protocol version" none)

-- `classifyReadError`: a wire error stays as it is, an error of the reader is wrapped.
unfoldable pub classify_read_error : PacketType → String → Error → Error
unfolding wire_error
classify_read_error packet field (wire e) = wire e
classify_read_error packet field (io e) =
    wire (wire_error malformed_packet packet field "failed to read field" (some e))
classify_read_error packet field out_of_fuel = out_of_fuel

abbrev pub map_error {ℓ} : {A : Type ℓ} → (Error → Error) → Result A → Result A
map_error f (ok a) = ok a
map_error f (err e) = err (f e)

pub ok_pair {ℓ κ} :
    {A : Type ℓ} {B : Type κ} (x a : A) (y b : B)
    → ◌≡◌ {A = Result (A × B)} (ok (x, y)) (ok (a, b))
    → (x ≡ a) × (y ≡ b)
ok_pair x a y b h = (cc, cc)

pub ok_injective {ℓ} : {A : Type ℓ} (x a : A) → ok x ≡ ok a → x ≡ a
ok_injective x a h = cc

pub err_injective {ℓ} : {A : Type ℓ} (x a : Error) → ◌≡◌ {A = Result A} (err x) (err a) → x ≡ a
err_injective x a h = cc
