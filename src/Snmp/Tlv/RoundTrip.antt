-- ===== src/Snmp/Tlv/RoundTrip.antt =====
-- What a reader finds where a tagged value was written.
use nl.Prelude.{
  ℕ, ◌+◌, ◌≤◌, ◌≡◌, refl, ap, ◌∙◌, some, ◌∷◌, ◌++◌, append_assoc, length, get_elem?, take, drop,
  drop-cons, drop_piece, take-append,
}
use nl.Prelude.Bytes.{Bytes}
use nl.Prelude.Go.{ret}
use nl.Snmp.Length.{parse_length, encode_length, max_int32}
use nl.Snmp.Length.RoundTrip.{parse_length-encode_length}
use nl.Snmp.Tlv.{asn1_octet_string, asn1_sequence, encode_octet_string, encode_sequence}

-- At a position of a datagram: a tag, a length that `parse_length` reads, the contents, and the
-- rest of the datagram behind them.
pub record Tagged (bs : Bytes) (pos tag : ℕ) (contents rest : Bytes) : Type 0 where
  pub at : ℕ
  pub tag_is : get_elem? bs pos ≡ some tag
  pub length_is : parse_length bs (pos + 1) ≡ ret (some (length contents), at)
  pub contents_are : take (length contents) (drop at bs) ≡ contents
  pub rest_is : drop (at + length contents) bs ≡ rest

encoded-Tagged :
    (bs rest contents : Bytes) (pos tag : ℕ)
    → length contents ≤ max_int32
    → drop pos bs ≡ tag ∷ (encode_length (length contents) ++ (contents ++ rest))
    → Tagged bs pos tag contents rest
encoded-Tagged bs rest contents pos tag fits h =
    let n = length contents in
    let (e, next, _) = drop-cons bs pos tag (encode_length n ++ (contents ++ rest)) h in
    let body = drop_piece bs (encode_length n) (contents ++ rest) (pos + 1) next in
    record {
      at = pos + 1 + length (encode_length n);
      tag_is = e;
      length_is = parse_length-encode_length bs (contents ++ rest) (pos + 1) n fits next;
      contents_are = ap (take n) body ∙ take-append contents rest n refl;
      rest_is = drop_piece bs contents rest (pos + 1 + length (encode_length n)) body;
    }

-- A sequence that was written anywhere in a datagram, of up to MaxInt32 octets, stands there with its
-- tag, a length that `parseLength` reads as its own, exactly its contents behind that, and what
-- follows behind those.
pub encode_sequence-Tagged :
    (bs rest contents : Bytes) (pos : ℕ)
    → length contents ≤ max_int32
    → drop pos bs ≡ encode_sequence contents ++ rest
    → Tagged bs pos asn1_sequence contents rest
unfolding encode_sequence
encode_sequence-Tagged bs rest contents pos fits h =
    encoded-Tagged bs rest contents pos asn1_sequence fits (
      h
      ∙ ap (λ x. asn1_sequence ∷ x) (append_assoc (encode_length (length contents)) contents rest))

-- An octet string that was written anywhere in a datagram, of up to MaxInt32 octets, stands there with its
-- tag, a length that `parseLength` reads as its own, exactly its contents behind that, and what
-- follows behind those.
pub encode_octet_string-Tagged :
    (bs rest contents : Bytes) (pos : ℕ)
    → length contents ≤ max_int32
    → drop pos bs ≡ encode_octet_string contents ++ rest
    → Tagged bs pos asn1_octet_string contents rest
unfolding encode_octet_string
encode_octet_string-Tagged bs rest contents pos fits h =
    encoded-Tagged bs rest contents pos asn1_octet_string fits (
      h
      ∙ ap (λ x. asn1_octet_string ∷ x)
          (append_assoc (encode_length (length contents)) contents rest))
