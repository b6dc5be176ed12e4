-- ===== src/Snmp/Request/Safe.antt =====
-- Reading a request never reads out of range, and a community that it reports as parsed is in the
-- datagram.
use nl.Prelude.{
  ℕ, ◌+◌, ◌-◌, ◌≤◌, ◌<◌, ◌≡◌, ◌⊎◌, inl, inr, refl, Bool, true, false, ◌&&◌, Option, none, some, [],
  ◌∷◌, ltb, leb, ◌==◌, if◌then◌else◌, length, take, drop, length-take, length-drop, arith,
}
use nl.Prelude.Bytes.{Bytes}
use nl.Prelude.Int.{ℤ}
use nl.Prelude.Go.{
  Go, ret, ◌>>=◌, index, slice, Returns, Returns-bind, Returns-if, Returns-weaken, index-Returns,
}
use nl.Snmp.Length.{parse_length}
use nl.Snmp.Length.Safe.{parse_length-Returns}
use nl.Snmp.Integer.{asn1_integer, parse_ber_int}
use nl.Snmp.Integer.Parse.{parse_ber_int-Returns}
use nl.Snmp.Tlv.{asn1_octet_string, asn1_sequence}
use nl.Snmp.Oid.{asn1_oid, decode_oid}
use nl.Snmp.Response.{SnmpRequest}
use nl.Snmp.Request.{
  default_request, Cursor, tag_at, is_tag, served_pdu_tag, ber_int_at, advance, with_version,
  with_request_id, read_version, take_community, read_community, read_request_id, skip_field,
  with_oid, take_oid, skip_header, read_first_name, read_pdu, read_message_fields,
  parse_incoming_request,
}

-- A community that was parsed is in the datagram; one that was not is the default.
abbrev pub CommunityOf : Bytes → SnmpRequest → Type 0
CommunityOf bs req =
    ((req.community_parsed ≡ true)
      × ((p : ℕ) × (take (length req.community) (drop p bs) ≡ req.community)))
    ⊎ ((req.community_parsed ≡ false) × (req.community ≡ default_request.community))

pub tag_at-Returns :
    (bs : Bytes) (p : ℕ) (test : ℕ → Bool)
    → Returns (tag_at bs p test) (λ here. here ≡ true → p < length bs)
unfolding tag_at
tag_at-Returns bs p test =
    Returns-if (leb (length bs) p) _ _ (λ here. here ≡ true → p < length bs) (λ e h. absurd (cc h))
      (λ e.
        let inside : p < length bs = ground arith in
        Returns-bind (index bs p) _ (λ b. Unit {0}) (λ here. here ≡ true → p < length bs)
          (index-Returns bs p inside) (λ b u h. inside))

ber_int_at-Returns :
    (bs : Bytes) (p : ℕ) (n : Option ℕ) → Returns (ber_int_at bs p n) (λ v. Unit {0})
ber_int_at-Returns bs p none = tt
ber_int_at-Returns bs p (some n) =
    Returns-weaken (parse_ber_int bs p n) _ (λ v. Unit {0}) (parse_ber_int-Returns bs p n)
      (λ v h. tt)

pub length-Returns : (bs : Bytes) (p : ℕ) → Returns (parse_length bs p) (λ r. Unit {0})
length-Returns bs p =
    Returns-weaken (parse_length bs p) _ (λ r. Unit {0}) (parse_length-Returns bs p) (λ r h. tt)

-- A step that keeps what is known of the community.
abbrev Keeps : Bytes → SnmpRequest → Go Cursor → Type 0
Keeps bs req m = CommunityOf bs req → Returns m (λ c. CommunityOf bs c.0)

with_version-CommunityOf :
    (bs : Bytes) (req : SnmpRequest) (v : Option ℤ)
    → CommunityOf bs req
    → CommunityOf bs (with_version req v)
with_version-CommunityOf bs req none h = h
with_version-CommunityOf bs req (some v) h = h

with_request_id-CommunityOf :
    (bs : Bytes) (req : SnmpRequest) (v : Option ℤ)
    → CommunityOf bs req
    → CommunityOf bs (with_request_id req v)
with_request_id-CommunityOf bs req none h = h
with_request_id-CommunityOf bs req (some v) h = h

with_oid-CommunityOf :
    (bs : Bytes) (req : SnmpRequest) (oid : Bytes)
    → CommunityOf bs req
    → CommunityOf bs (with_oid req oid)
with_oid-CommunityOf bs req [] h = h
with_oid-CommunityOf bs req (c ∷ oid) h = h

-- The two INTEGERs have the same steps, with another use of the number.
integer_step :
    (bs : Bytes) (req : SnmpRequest) (p : ℕ) (use_it : Option ℤ → SnmpRequest)
    → ((v : Option ℤ) → CommunityOf bs (use_it v))
    → Returns {A = Cursor}
        (parse_length bs (p + 1) >>= λ r.
          ber_int_at bs r.1 r.0 >>= λ v. ret (use_it v, advance r.1 r.0))
        (λ c. CommunityOf bs c.0)
integer_step bs req p use_it h =
    Returns-bind (parse_length bs (p + 1)) _ (λ r. Unit {0}) (λ c. CommunityOf bs c.0)
      (length-Returns bs (p + 1))
      (λ r u.
        Returns-bind (ber_int_at bs r.1 r.0) _ (λ v. Unit {0}) (λ c. CommunityOf bs c.0)
          (ber_int_at-Returns bs r.1 r.0) (λ v w. h v))

-- A step that is taken behind a tag only.
behind_tag :
    {A : Type 0} (bs : Bytes) (p : ℕ) (test : ℕ → Bool) (m n : Go A) (Q : A → Type 0)
    → (p < length bs → Returns m Q)
    → Returns n Q
    → Returns (tag_at bs p test >>= λ here. if here then m else n) Q
behind_tag bs p test m n Q h k =
    Returns-bind (tag_at bs p test) _ _ Q (tag_at-Returns bs p test)
      (λ here inside. Returns-if here m n Q (λ e. h (inside e)) (λ e. k))

read_version-Keeps :
    (bs : Bytes) (req : SnmpRequest) (p : ℕ) → Keeps bs req (read_version bs (req, p))
unfolding read_version
read_version-Keeps bs req p h =
    behind_tag bs p (is_tag asn1_integer) _ _ _
      (λ inside.
        integer_step bs req p (with_version req) (λ v. with_version-CommunityOf bs req v h))
      h

read_request_id-Keeps :
    (bs : Bytes) (req : SnmpRequest) (p : ℕ) → Keeps bs req (read_request_id bs (req, p))
unfolding read_request_id
read_request_id-Keeps bs req p h =
    behind_tag bs p (is_tag asn1_integer) _ _ _
      (λ inside.
        integer_step bs req p (with_request_id req) (λ v. with_request_id-CommunityOf bs req v h))
      h

-- A slice is what it says, and as long.
slice-Returns :
    (bs : Bytes) (lo hi : ℕ)
    → lo ≤ hi
    → hi ≤ length bs
    → Returns (slice bs lo hi) (λ s. (take (length s) (drop lo bs) ≡ s) × (length s ≡ hi - lo))
slice-Returns bs lo hi a b =
    let inside : (leb lo hi && leb hi (length bs)) ≡ true = ground arith in
    let n : length (take (hi - lo) (drop lo bs)) ≡ hi - lo =
      omega (arith, length-take (hi - lo) (drop lo bs), length-drop lo bs) in
    rw inside (rw n refl, n)

take_community-Keeps :
    (bs : Bytes) (req : SnmpRequest) (r : Option ℕ × ℕ) → Keeps bs req (take_community bs req r)
take_community-Keeps bs req (none, p) h = h
take_community-Keeps bs req (some n, p) h =
    Returns-if (leb (p + n) (length bs)) _ _ _
      (λ e.
        Returns-bind (slice bs p (p + n)) _ _ (λ c. CommunityOf bs c.0)
          (slice-Returns bs p (p + n) (omega arith) (ground arith)) (λ c s. inl (refl, (p, s.0))))
      (λ e. h)

read_community-Keeps : (bs : Bytes) (c : Cursor) → Keeps bs c.0 (read_community bs c)
unfolding read_community
read_community-Keeps bs (req, p) h =
    behind_tag bs p (is_tag asn1_octet_string) _ _ _
      (λ inside.
        Returns-bind (parse_length bs (p + 1)) _ _ _ (length-Returns bs (p + 1))
          (λ r u. take_community-Keeps bs req r h))
      h

skip_field-Returns : (bs : Bytes) (p : ℕ) → Returns (skip_field bs p) (λ q. Unit {0})
unfolding skip_field
skip_field-Returns bs p =
    behind_tag bs p (is_tag asn1_integer) _ _ _
      (λ inside.
        Returns-bind (parse_length bs (p + 1)) _ _ _ (length-Returns bs (p + 1)) (λ r u. tt))
      tt

skip_header-Returns :
    (bs : Bytes) (p : ℕ) → p < length bs → Returns (skip_header bs p) (λ q. Unit {0})
unfolding skip_header
skip_header-Returns bs p h =
    Returns-bind (slice bs (p + 1) (length bs)) _ _ _
      (slice-Returns bs (p + 1) (length bs) (omega arith) (omega arith)) (λ rest s. tt)

take_oid-Returns :
    (bs : Bytes) (req : SnmpRequest) (r : Option ℕ × ℕ)
    → CommunityOf bs req
    → Returns (take_oid bs req r) (CommunityOf bs)
take_oid-Returns bs req (none, p) h = h
take_oid-Returns bs req (some n, p) h =
    Returns-if (ltb 0 n && leb (p + n) (length bs)) _ _ (CommunityOf bs)
      (λ e.
        Returns-bind (slice bs p (p + n)) _ _ (CommunityOf bs)
          (slice-Returns bs p (p + n) (omega arith) (ground arith))
          (λ octets s. with_oid-CommunityOf bs req (decode_oid octets) h))
      (λ e. h)

read_first_name-Returns :
    (bs : Bytes) (req : SnmpRequest) (p : ℕ)
    → CommunityOf bs req
    → Returns (read_first_name bs req p) (CommunityOf bs)
unfolding read_first_name
read_first_name-Returns bs req p h =
    behind_tag bs p (is_tag asn1_sequence) _ _ (CommunityOf bs)
      (λ at_list.
        Returns-bind (skip_header bs p) _ _ (CommunityOf bs) (skip_header-Returns bs p at_list)
          (λ q u.
            behind_tag bs q (is_tag asn1_sequence) _ _ (CommunityOf bs)
              (λ at_binding.
                Returns-bind (skip_header bs q) _ _ (CommunityOf bs)
                  (skip_header-Returns bs q at_binding)
                  (λ n v.
                    behind_tag bs n (is_tag asn1_oid) _ _ (CommunityOf bs)
                      (λ at_name.
                        Returns-bind (parse_length bs (n + 1)) _ _ (CommunityOf bs)
                          (length-Returns bs (n + 1)) (λ r w. take_oid-Returns bs req r h))
                      h))
              h))
      h

read_pdu-Returns :
    (bs : Bytes) (req : SnmpRequest) (r : Option ℕ × ℕ)
    → CommunityOf bs req
    → Returns (read_pdu bs req r) (CommunityOf bs)
read_pdu-Returns bs req (none, p) h = h
read_pdu-Returns bs req (some n, p) h =
    Returns-bind (read_request_id bs (req, p)) _ _ (CommunityOf bs)
      (read_request_id-Keeps bs req p h)
      (λ c k.
        Returns-bind (skip_field bs c.1) _ _ (CommunityOf bs) (skip_field-Returns bs c.1) (λ q u.
          Returns-bind (skip_field bs q) _ _ (CommunityOf bs) (skip_field-Returns bs q)
            (λ t v. read_first_name-Returns bs c.0 t k)))

unparsed : (bs : Bytes) → CommunityOf bs default_request
unparsed bs = inr (refl, refl)

read_message_fields-Returns :
    (bs : Bytes) (r : Option ℕ × ℕ) → Returns (read_message_fields bs r) (CommunityOf bs)
read_message_fields-Returns bs (none, p) = unparsed bs
read_message_fields-Returns bs (some n, p) =
    Returns-bind (read_version bs (default_request, p)) _ _ (CommunityOf bs)
      (read_version-Keeps bs default_request p (unparsed bs))
      (λ v k.
        Returns-bind (read_community bs v) _ _ (CommunityOf bs) (read_community-Keeps bs v k)
          (λ c l.
            behind_tag bs c.1 served_pdu_tag _ _ (CommunityOf bs)
              (λ inside.
                Returns-bind (parse_length bs (c.1 + 1)) _ _ (CommunityOf bs)
                  (length-Returns bs (c.1 + 1)) (λ r u. read_pdu-Returns bs c.0 r l))
              l))

-- On any datagram `parseIncomingRequest` returns, with no index and no slice out of range. A
-- community that it reports as parsed stands in the datagram, and where it reports none the
-- community is the default.
pub parse_incoming_request-Returns :
    (bs : Bytes) → Returns (parse_incoming_request bs) (CommunityOf bs)
unfolding parse_incoming_request
parse_incoming_request-Returns bs =
    Returns-if (ltb (length bs) 10) _ _ (CommunityOf bs) (λ e. unparsed bs)
      (λ e.
        Returns-bind (index bs 0) _ _ (CommunityOf bs) (index-Returns bs 0 (ground arith)) (λ tag u.
          Returns-if (tag == asn1_sequence) _ _ (CommunityOf bs)
            (λ t.
              Returns-bind (parse_length bs 1) _ _ (CommunityOf bs) (length-Returns bs 1)
                (λ r v. read_message_fields-Returns bs r))
            (λ t. unparsed bs)))
