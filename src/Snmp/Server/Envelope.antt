-- ===== src/Snmp/Server/Envelope.antt =====
-- The dispatcher and the request parser read one envelope.
use nl.Prelude.{
  ℕ, ◌+◌, ◌≡◌, refl, sym, ap, ◌∙◌, Bool, Bool-cases, inl, inr, true, false, not, Option, none, some,
  ltb, leb, ◌==◌, if◌then◌else◌, length, arith,
}
use mathlib.Core.Path.{fun_ext}
use nl.Prelude.Bytes.{Bytes}
use nl.Prelude.Int.{ℤ}
use nl.Prelude.Go.{Go, ret, panic, stuck, ◌>>=◌, index, Returns, Returns-weaken}
use nl.Snmp.Length.{parse_length}
use nl.Snmp.Integer.{asn1_integer, parse_ber_int}
use nl.Snmp.Integer.Parse.{parse_ber_int-Returns}
use nl.Snmp.Tlv.{asn1_octet_string, asn1_sequence}
use nl.Snmp.Response.{SnmpRequest}
use nl.Snmp.Request.{
  asn1_get_request, default_request, Cursor, tag_at, is_tag, ber_int_at, advance, with_version,
  read_version, take_community, read_community, served_pdu_tag, read_pdu, read_message_fields,
  parse_incoming_request,
}
use nl.Snmp.Server.{
  skip_version, behind_community, skip_community, pdu_tag, pdu_type_behind, get_pdu_type,
}

-- A run that returns, and whose result is not used, leaves no trace.
drop-bind {ℓ κ} :
    {A : Type ℓ} {B : Type κ} (m : Go A) (k : B)
    → Returns m (λ a. Unit {0})
    → (m >>= λ a. ret k) ≡ ret k
drop-bind (ret a) k h = refl
drop-bind panic k h = absurd h
drop-bind stuck k h = absurd h

ber_int_at-ret : (bs : Bytes) (p : ℕ) (n : Option ℕ) → Returns (ber_int_at bs p n) (λ v. Unit {0})
ber_int_at-ret bs p none = tt
ber_int_at-ret bs p (some n) =
    Returns-weaken (parse_ber_int bs p n) _ (λ v. Unit {0}) (parse_ber_int-Returns bs p n)
      (λ v h. tt)

bind_assoc {ℓ κ μ} :
    {A : Type ℓ} {B : Type κ} {C : Type μ} (m : Go A) (f : A → Go B) (g : B → Go C)
    → (m >>= f >>= g) ≡ (m >>= λ a. f a >>= g)
bind_assoc (ret a) f g = refl
bind_assoc panic f g = refl
bind_assoc stuck f g = refl

module _ (bs : Bytes) where
  -- The continuation of the two readers.
  read_version-skip :
      (req : SnmpRequest) (p : ℕ) (k : SnmpRequest → ℕ → Go ℕ) (l : ℕ → Go ℕ)
      → ((r : SnmpRequest) (q : ℕ) → k r q ≡ l q)
      → (read_version bs (req, p) >>= λ c. k c.0 c.1) ≡ (skip_version bs p >>= l)
  unfolding read_version skip_version
  read_version-skip req p k l same =
      cases (tag_at bs p (is_tag asn1_integer)) (parse_length bs (p + 1))
    where
      versioned : Option ℕ × ℕ → Option ℤ → Cursor
      versioned r v = (with_version req v, advance r.1 r.0)

      valued :
          (r : Option ℕ × ℕ) (m : Go (Option ℤ))
          → Returns m (λ v. Unit {0})
          → (m >>= (λ v. ret (versioned r v)) >>= λ c. k c.0 c.1) ≡ l (advance r.1 r.0)
      valued r (ret v) h = same (with_version req v) (advance r.1 r.0)
      valued r panic h = absurd h
      valued r stuck h = absurd h

      lengths :
          (m : Go (Option ℕ × ℕ))
          → (m >>= (λ r. ber_int_at bs r.1 r.0 >>= λ v. ret (versioned r v)) >>= λ c. k c.0 c.1)
            ≡ (m >>= (λ r. ret (advance r.1 r.0)) >>= l)
      lengths (ret r) = valued r (ber_int_at bs r.1 r.0) (ber_int_at-ret bs r.1 r.0)
      lengths panic = refl
      lengths stuck = refl

      cases :
          (here : Go Bool) (m : Go (Option ℕ × ℕ))
          → (here
              >>= (λ h.
                  if h
                  then (m >>= λ r. ber_int_at bs r.1 r.0 >>= λ v. ret (versioned r v))
                  else ret (req, p))
              >>= λ c. k c.0 c.1)
            ≡ (here >>= (λ h. if h then (m >>= λ r. ret (advance r.1 r.0)) else ret p) >>= l)
      cases (ret true) m = lengths m
      cases (ret false) m = same req p
      cases panic m = refl
      cases stuck m = refl

  read_community-skip :
      (c : Cursor) (l : ℕ → Go ℕ)
      → (read_community bs c >>= λ d. l d.1) ≡ (skip_community bs c.1 >>= l)
  unfolding read_community skip_community
  read_community-skip (req, p) l =
      cases (tag_at bs p (is_tag asn1_octet_string)) (parse_length bs (p + 1))
    where
      taken :
          (r : Option ℕ × ℕ) → (take_community bs req r >>= λ d. l d.1) ≡ l (behind_community bs r)
      taken (none, q) = refl
      taken (some n, q) = elim (Bool-cases (leb (q + n) (length bs))) [
        | inl t ↦ let lo : leb q (q + n) ≡ true = ground arith in rw t (rw lo refl)
        | inr f ↦ rw f refl
      ]

      lengths :
          (m : Go (Option ℕ × ℕ))
          → (m >>= take_community bs req >>= λ d. l d.1)
            ≡ (m >>= (λ r. ret (behind_community bs r)) >>= l)
      lengths (ret r) = taken r
      lengths panic = refl
      lengths stuck = refl

      cases :
          (here : Go Bool) (m : Go (Option ℕ × ℕ))
          → (here >>= (λ h. if h then (m >>= take_community bs req) else ret (req, p)) >>= λ d.
              l d.1)
            ≡ (here >>= (λ h. if h then (m >>= λ r. ret (behind_community bs r)) else ret p) >>= l)
      cases (ret true) m = lengths m
      cases (ret false) m = refl
      cases panic m = refl
      cases stuck m = refl

  -- The request behind the length of the message, with the position of the PDU; none where the
  -- length is not readable.
  abbrev pub fields_behind : Option ℕ × ℕ → Go (Option Cursor)
  fields_behind (none, p) = ret none
  fields_behind (some n, p) =
      read_version bs (default_request, p) >>= λ v. read_community bs v >>= λ c. ret (some c)

  -- The request as it is in front of the PDU, with the position of that.
  abbrev pub envelope : Go (Option Cursor)
  envelope =
      if ltb (length bs) 10
      then ret none
      else (index bs 0 >>= λ tag.
          if not (tag == asn1_sequence) then ret none else (parse_length bs 1 >>= fields_behind))

  abbrev pub tag_from : Option Cursor → Go ℕ
  tag_from none = ret asn1_get_request
  tag_from (some c) = pdu_tag bs c.1

  -- The request that is read from the PDU at this position.
  abbrev pub request_from : Option Cursor → Go SnmpRequest
  request_from none = ret default_request
  request_from (some c) = tag_at bs c.1 served_pdu_tag >>= λ pdu.
      if pdu then (parse_length bs (c.1 + 1) >>= read_pdu bs c.0) else ret c.0

  behind-bind {ℓ} :
      {A : Type ℓ} (f : Option Cursor → Go A) (n p : ℕ)
      → (fields_behind (some n, p) >>= f)
        ≡ (read_version bs (default_request, p) >>= λ v. read_community bs v >>= λ c. f (some c))
  behind-bind f n p =
      bind_assoc (read_version bs (default_request, p)) _ f
      ∙ ap (λ k. read_version bs (default_request, p) >>= k)
          (fun_ext (λ v. bind_assoc (read_community bs v) (λ c. ret (some c)) f))

  envelope-bind {ℓ} :
      {A : Type ℓ} (f : Option Cursor → Go A)
      → (envelope >>= f) ≡ (
          if ltb (length bs) 10
          then f none
          else (index bs 0 >>= λ tag.
              if not (tag == asn1_sequence)
              then f none
              else (parse_length bs 1 >>= λ r. fields_behind r >>= f)))
  envelope-bind f = elim (Bool-cases (ltb (length bs) 10)) [
    | inl t ↦ rw t refl
    | inr t ↦ rw t (
        bind_assoc (index bs 0) _ f
        ∙ ap (λ k. index bs 0 >>= k)
            (fun_ext (λ tag. elim (Bool-cases (tag == asn1_sequence)) [
              | inl e ↦ rw e (bind_assoc (parse_length bs 1) fields_behind f)
              | inr e ↦ rw e refl
            ])))
  ]

  pdu_type_behind-tag : (r : Option ℕ × ℕ) → pdu_type_behind bs r ≡ (fields_behind r >>= tag_from)
  pdu_type_behind-tag (none, p) = refl
  pdu_type_behind-tag (some n, p) =
      sym (
        read_version-skip default_request p
          (λ r q. read_community bs (r, q) >>= λ c. pdu_tag bs c.1)
          (λ q. skip_community bs q >>= pdu_tag bs)
          (λ r q. read_community-skip (r, q) (pdu_tag bs)))
      ∙ sym (behind-bind tag_from n p)

  message_fields :
      (r : Option ℕ × ℕ) → read_message_fields bs r ≡ (fields_behind r >>= request_from)
  message_fields (none, p) = refl
  message_fields (some n, p) = sym (behind-bind request_from n p)

  -- On every datagram `parseIncomingRequest` is the reading of an envelope and then, from the position
  -- that this gives, of a PDU that it serves; and `getPDUType` reports the octet at that same
  -- position, and GetRequest where there is none.
  pub get_pdu_type-parser :
      (parse_incoming_request bs ≡ (envelope >>= request_from))
      × (get_pdu_type bs ≡ (envelope >>= tag_from))
  unfolding get_pdu_type parse_incoming_request
  get_pdu_type-parser = (
    parsed ∙ sym (envelope-bind request_from),
    ap
          (λ f.
            if ltb (length bs) 10
            then ret asn1_get_request
            else (index bs 0 >>= λ tag.
                if not (tag == asn1_sequence)
                then ret asn1_get_request
                else (parse_length bs 1 >>= f)))
          (fun_ext pdu_type_behind-tag)
        ∙ sym (envelope-bind tag_from),
  )
    where
      parsed : parse_incoming_request bs ≡ (
          if ltb (length bs) 10
          then ret default_request
          else (index bs 0 >>= λ tag.
              if not (tag == asn1_sequence)
              then ret default_request
              else (parse_length bs 1 >>= λ r. fields_behind r >>= request_from)))
      parsed =
          ap (λ k. if ltb (length bs) 10 then ret default_request else (index bs 0 >>= k))
            (fun_ext (λ tag. elim (Bool-cases (tag == asn1_sequence)) [
              | inl e ↦ rw e (ap (λ k. parse_length bs 1 >>= k) (fun_ext message_fields))
              | inr e ↦ rw e refl
            ]))
