-- ===== src/Snmp/Response/Size.antt =====
-- `snmpMessageSizeFor` is the size of the message that `encodeGetResponseAt` builds.
use nl.Prelude.{ℕ, ◌+◌, ◌≤◌, ◌<◌, ◌≡◌, refl, ap, ◌∙◌, ◌∷◌, ◌++◌, length, length-append, arith}
use nl.Prelude.Bytes.{Bytes}
use nl.Prelude.Int.{pos}
use nl.Snmp.Length.{encode_length}
use nl.Snmp.Length.Small.{length-encode_length}
use nl.Snmp.Integer.{encode_integer}
use nl.Snmp.Tlv.{encode_octet_string, encode_sequence}
use nl.Snmp.Response.{
  SnmpRequest, pdu_contents, encode_get_response_at, len_bytes_for, snmp_message_size_for,
}

pub len_bytes_for_mono : {m n : ℕ} → m ≤ n → len_bytes_for m ≤ len_bytes_for n
unfolding len_bytes_for
len_bytes_for_mono h = ground arith

pub snmp_message_size_for_mono :
    (mp pp : ℕ) {m n : ℕ} → m ≤ n → snmp_message_size_for mp pp m ≤ snmp_message_size_for mp pp n
unfolding snmp_message_size_for
snmp_message_size_for_mono mp pp {m} {n} h =
    let a = len_bytes_for_mono h in
    let pm = pp + (1 + len_bytes_for m + m) in
    let pn = pp + (1 + len_bytes_for n + n) in
    let b : len_bytes_for pm ≤ len_bytes_for pn = len_bytes_for_mono (omega arith) in
    let c : len_bytes_for (mp + (1 + len_bytes_for pm + pm))
        ≤ len_bytes_for (mp + (1 + len_bytes_for pn + pn)) =
      len_bytes_for_mono (omega arith) in
    omega arith

-- A value under a tag, with its length.
framed :
    (tag : ℕ) (bs : Bytes)
    → length bs < 65536
    → length (tag ∷ (encode_length (length bs) ++ bs)) ≡ 1 + len_bytes_for (length bs) + length bs
unfolding len_bytes_for
framed tag bs h =
    let a = length-append (encode_length (length bs)) bs in
    let b = length-encode_length (length bs) h in omega (arith, a, b)

-- The prefixes of a message and of its PDU.
abbrev pub msg_prefix_of : SnmpRequest → ℕ
msg_prefix_of req = length (encode_integer req.version) + length (encode_octet_string req.community)

abbrev pub pdu_prefix_of : SnmpRequest → ℕ → ℕ → ℕ
pdu_prefix_of req err_status err_index =
    length (encode_integer req.request_id)
    + length (encode_integer (pos err_status))
    + length (encode_integer (pos err_index))

module _ (req : SnmpRequest) (list : Bytes) (err_status err_index : ℕ) where
  abbrev contents : Bytes
  contents = pdu_contents req list err_status err_index

  abbrev pdu : Bytes
  pdu = 0xa2 ∷ (encode_length (length contents) ++ contents)

  abbrev vb_seq : ℕ
  vb_seq = 1 + len_bytes_for (length list) + length list

  abbrev msg : Bytes
  msg = encode_integer req.version ++ (encode_octet_string req.community ++ pdu)

  length-contents :
      length list < 65536 → length contents ≡ pdu_prefix_of req err_status err_index + vb_seq
  unfolding pdu_contents encode_sequence
  length-contents h =
      let f = framed 0x30 list h in
      let a = length-append (encode_integer req.request_id) (
        encode_integer (pos err_status)
        ++ (encode_integer (pos err_index) ++ encode_sequence list)) in
      let b =
        length-append (encode_integer (pos err_status))
          (encode_integer (pos err_index) ++ encode_sequence list) in
      let c = length-append (encode_integer (pos err_index)) (encode_sequence list) in
      omega (arith, a, b, c, f)

  length-msg : length msg ≡ msg_prefix_of req + length pdu
  length-msg =
      let a =
        length-append (encode_integer req.version) (encode_octet_string req.community ++ pdu) in
      let b = length-append (encode_octet_string req.community) pdu in omega (arith, a, b)

  -- For a message below 65536 octets, `snmpMessageSizeFor` gives exactly the number of octets that
  -- `encodeGetResponseAt` writes, whatever the request, the list and the error fields.
  pub length-encode_get_response_at :
      snmp_message_size_for
          (msg_prefix_of req)
          (pdu_prefix_of req err_status err_index)
          (length list)
        < 65536
      → length (encode_get_response_at req list err_status err_index)
        ≡ snmp_message_size_for
            (msg_prefix_of req)
            (pdu_prefix_of req err_status err_index)
            (length list)
  unfolding encode_get_response_at snmp_message_size_for encode_sequence
  length-encode_get_response_at h =
      let e = length-contents (omega arith) in
      let p = framed 0xa2 contents (omega arith) in
      let q : length pdu
          ≡ 1
            + len_bytes_for (pdu_prefix_of req err_status err_index + vb_seq)
            + (pdu_prefix_of req err_status err_index + vb_seq) =
        p ∙ rw e refl in
      let r = length-msg ∙ ap (λ k. msg_prefix_of req + k) q in
      framed 0x30 msg (omega arith) ∙ rw r refl
