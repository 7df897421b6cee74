-- ===== src/Proxy/Wire/Frames.antt =====
-- Every message written is one frame: its length field counts what follows, so the proxy's own
-- reader takes exactly that message off the stream.
use waltap.Prelude.{
  ℕ, suc, ◌+◌, ◌-◌, ◌^◌, ◌<◌, ◌≡◌, refl, sym, ap, ◌∙◌, Option, none, some, List, [], ◌∷◌, ◌++◌,
  arith, length, drop, length-append, take_all, drop_all, append_assoc, append-nil, Bytes, ok,
}
use waltap.Proxy.Wire.{
  put_uint32, put_uint16, fill, parameter_status, ready_for_query, severity, error_response,
  command_complete, FieldDescription, fields_size, put_field, put_fields, row_description,
  columns_size, put_columns, data_row, read_full, uint32, read_message,
}

length-put_uint32 : (n : ℕ) → length (put_uint32 n) ≡ 4
unfolding put_uint32
length-put_uint32 n = refl

length-put_uint16 : (n : ℕ) → length (put_uint16 n) ≡ 2
unfolding put_uint16
length-put_uint16 n = refl

pub uint32-put_uint32 : (n : ℕ) (s : Bytes) → n < 2 ^ 32 → uint32 (put_uint32 n ++ s) ≡ n
unfolding put_uint32 uint32
uint32-put_uint32 n s h = omega arith

-- A buffer of the right size holds what is written to it.
fill-length : (content : Bytes) (size : ℕ) → size ≡ length content → fill size content ≡ content
unfolding fill
fill-length content size e = rw e (take_all content _)

read_full_lem : (xs ys : Bytes) → read_full (length xs) (xs ++ ys) ≡ ok (xs, ys)
unfolding read_full
read_full_lem [] ys = refl
read_full_lem (x ∷ xs) ys = ground (arith, length-append xs ys, take_all xs ys, drop_all xs ys)

read_message_parts :
    (header body rest : Bytes)
    → length header ≡ 5
    → uint32 (drop 1 header) ≡ 4 + length body
    → read_message (header ++ (body ++ rest)) ≡ ok (header ++ body, rest)
unfolding read_message
read_message_parts header body rest five size =
    let first = rw five at (read_full_lem header (body ++ rest)) in
    let body_size : 4 + length body - 4 ≡ length body = omega arith in
    ground (arith, first, size, body_size, read_full_lem body rest)

-- A frame: a kind, the length of what follows with its own four bytes, and the rest.
abbrev pub frame : ℕ → Bytes → Bytes
frame kind body = kind ∷ (put_uint32 (4 + length body) ++ body)

pub read_message-frame :
    (kind : ℕ) (body rest : Bytes)
    → 4 + length body < 2 ^ 32
    → read_message (frame kind body ++ rest) ≡ ok (frame kind body, rest)
read_message-frame kind body rest h =
    let header = kind ∷ put_uint32 (4 + length body) in
    rw (append_assoc) (
      read_message_parts header body rest (ap suc (length-put_uint32 _)) (
        ap uint32 (sym (append-nil (put_uint32 (4 + length body))))
        ∙ uint32-put_uint32 (4 + length body) [] h))

fill-frame :
    (kind size : ℕ) (body : Bytes)
    → size ≡ 4 + length body
    → fill (1 + size) (kind ∷ (put_uint32 size ++ body)) ≡ frame kind body
fill-frame kind size body e =
    fill-length (kind ∷ (put_uint32 size ++ body)) (1 + size)
      (omega (arith, length-append (put_uint32 size) body, length-put_uint32 size))
    ∙ ap (λ (n : ℕ). kind ∷ (put_uint32 n ++ body)) e

text_size : (s t : Bytes) → length (s ++ 0 ∷ t) ≡ length s + 1 + length t
text_size s t = omega (arith, length-append s (0 ∷ t))

pub parameter_status-frame :
    (key value : Bytes) → parameter_status key value ≡ frame b'S' (key ++ 0 ∷ (value ++ 0 ∷ []))
unfolding parameter_status
parameter_status-frame key value =
    fill-frame b'S' _ _ (omega (arith, text_size key (value ++ 0 ∷ []), text_size value []))

pub error_response-frame :
    (message : Bytes)
    → error_response message ≡ frame b'E' (b'S' ∷ (severity ++ 0 ∷ b'M' ∷ (message ++ 0 ∷ 0 ∷ [])))
unfolding error_response
error_response-frame message =
    fill-frame b'E' _ (b'S' ∷ (severity ++ 0 ∷ b'M' ∷ (message ++ 0 ∷ 0 ∷ [])))
      (omega (arith, text_size message (0 ∷ [])))

pub command_complete-frame : (tag : Bytes) → command_complete tag ≡ frame b'C' (tag ++ 0 ∷ [])
unfolding command_complete
command_complete-frame tag = fill-frame b'C' _ _ (omega (arith, text_size tag []))

pub ready_for_query-frame : (status : ℕ) → ready_for_query status ≡ frame b'Z' (status ∷ [])
unfolding ready_for_query put_uint32
ready_for_query-frame status = refl

length-put_field :
    (f : FieldDescription) → length (put_field f) ≡ length f.name + 1 + 4 + 2 + 4 + 2 + 4 + 2
unfolding put_field
length-put_field f = omega (arith, length-append f.name _)

length-put_fields : (fs : List FieldDescription) → length (put_fields fs) ≡ fields_size fs
unfolding put_fields fields_size
length-put_fields [] = refl
length-put_fields (f ∷ fs) =
    omega
      (arith, length-append (put_field f) (put_fields fs), length-put_field f, length-put_fields fs)

pub row_description-frame :
    (fs : List FieldDescription)
    → row_description fs ≡ frame b'T' (put_uint16 (length fs) ++ put_fields fs)
unfolding row_description
row_description-frame fs = fill-frame b'T' _ (put_uint16 (length fs) ++ put_fields fs) (
    omega (
      arith,
      length-append (put_uint16 (length fs)) (put_fields fs),
      length-put_uint16 (length fs),
      length-put_fields fs,
    ))

length-put_columns : (vs : List (Option Bytes)) → length (put_columns vs) ≡ columns_size vs
unfolding put_columns columns_size
length-put_columns [] = refl
length-put_columns (none ∷ vs) = omega (arith, length-put_columns vs)
length-put_columns (some v ∷ vs) =
    omega (arith, length-append v (put_columns vs), length-put_columns vs)

pub data_row-frame :
    (vs : List (Option Bytes)) → data_row vs ≡ frame b'D' (put_uint16 (length vs) ++ put_columns vs)
unfolding data_row
data_row-frame vs = fill-frame b'D' _ (put_uint16 (length vs) ++ put_columns vs) (
    omega (
      arith,
      length-append (put_uint16 (length vs)) (put_columns vs),
      length-put_uint16 (length vs),
      length-put_columns vs,
    ))

-- Every message that the proxy writes is one frame: the length that it computes beforehand counts
-- its own four bytes and all that follows, down to the last terminator.
pub written-frames :
    (key value message tag : Bytes) (status : ℕ) (fs : List FieldDescription)
    (vs : List (Option Bytes))
    → (parameter_status key value ≡ frame b'S' (key ++ 0 ∷ (value ++ 0 ∷ [])))
      × (error_response message
          ≡ frame b'E' (b'S' ∷ (severity ++ 0 ∷ b'M' ∷ (message ++ 0 ∷ 0 ∷ []))))
      × (command_complete tag ≡ frame b'C' (tag ++ 0 ∷ []))
      × (ready_for_query status ≡ frame b'Z' (status ∷ []))
      × (row_description fs ≡ frame b'T' (put_uint16 (length fs) ++ put_fields fs))
      × (data_row vs ≡ frame b'D' (put_uint16 (length vs) ++ put_columns vs))
written-frames key value message tag status fs vs = (
  parameter_status-frame key value,
  error_response-frame message,
  command_complete-frame tag,
  ready_for_query-frame status,
  row_description-frame fs,
  data_row-frame vs,
)
