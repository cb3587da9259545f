-- ===== src/Print/Returns.antt =====
-- Which buffers the functions `print` of src/ether.rs, src/arp.rs, src/ip.rs, src/icmp.rs,
-- src/udp.rs and src/tcp.rs print without a panic.
use microps_rs.Base.{
  ℕ, ◌≤◌, ◌<◌, ◌≡◌, refl, ◌↔◌, ◌⊎◌, inl, inr, ◌||◌, List, [], ◌∷◌, Option, none, some, arith, ltb,
  ◌==◌, get_elem?, byte_at, length, All, if_cases, zero, suc, Bool-cases,
}
use microps_rs.Ether.Print.{print as print_frame}
use microps_rs.Arp.Print.{print as print_arp}
use microps_rs.Ip.Print.{print as print_packet}
use microps_rs.Icmp.Print.{print as print_icmp, echo_lines}
use microps_rs.Udp.Print.{print as print_datagram}
use microps_rs.Tcp.Segment.{hdr_len}
use microps_rs.Tcp.Print.{
  print as print_segment, print_with, header_lines, offset_line, print_options,
}
use microps_rs.Tcp.Print.Walk.{print_options-HasValue}
use microps_rs.Print.{checked_sub, all_lines}
use microps_rs.Print.Reads.{
  HasValue, get_elem?-HasValue, be16-HasValue, be32-HasValue, array-HasValue, checked_sub-HasValue,
  line-HasValue, all_lines-HasValue, then_HasValue, header_and_dump-HasValue,
}

frame_HasValue : (buf : List ℕ) → HasValue (print_frame buf)
unfolding print_frame
frame_HasValue buf = header_and_dump-HasValue _ buf _ λ h. (
  line-HasValue _ _ _ (array-HasValue 6 buf 6 (omega arith)),
  (
    line-HasValue _ _ _ (array-HasValue 6 buf 0 (omega arith)),
    (line-HasValue _ _ _ (be16-HasValue buf 12 (omega arith)), tt),
  ),
)

arp_HasValue : (buf : List ℕ) → HasValue (print_arp buf)
unfolding print_arp
arp_HasValue buf = header_and_dump-HasValue _ buf _ λ h. (
  line-HasValue _ _ _ (be16-HasValue buf 0 (omega arith)),
  (
    line-HasValue _ _ _ (be16-HasValue buf 2 (omega arith)),
    (
      line-HasValue _ _ _ (get_elem?-HasValue buf 4 (omega arith)),
      (
        line-HasValue _ _ _ (get_elem?-HasValue buf 5 (omega arith)),
        (
          line-HasValue _ _ _ (be16-HasValue buf 6 (omega arith)),
          (
            line-HasValue _ _ _ (array-HasValue 6 buf 8 (omega arith)),
            (
              line-HasValue _ _ _ (array-HasValue 4 buf 14 (omega arith)),
              (
                line-HasValue _ _ _ (array-HasValue 6 buf 18 (omega arith)),
                (line-HasValue _ _ _ (array-HasValue 4 buf 24 (omega arith)), tt),
              ),
            ),
          ),
        ),
      ),
    ),
  ),
)

packet_HasValue : (buf : List ℕ) → HasValue (print_packet buf)
unfolding print_packet
packet_HasValue buf = header_and_dump-HasValue _ buf _ λ h. (
  line-HasValue _ _ _ (get_elem?-HasValue buf 0 (omega arith)),
  (
    line-HasValue _ _ _ (get_elem?-HasValue buf 1 (omega arith)),
    (
      line-HasValue _ _ _ (be16-HasValue buf 2 (omega arith)),
      (
        line-HasValue _ _ _ (be16-HasValue buf 4 (omega arith)),
        (
          line-HasValue _ _ _ (be16-HasValue buf 6 (omega arith)),
          (
            line-HasValue _ _ _ (get_elem?-HasValue buf 8 (omega arith)),
            (
              line-HasValue _ _ _ (get_elem?-HasValue buf 9 (omega arith)),
              (
                line-HasValue _ _ _ (be16-HasValue buf 10 (omega arith)),
                (
                  line-HasValue _ _ _ (array-HasValue 4 buf 12 (omega arith)),
                  (line-HasValue _ _ _ (array-HasValue 4 buf 16 (omega arith)), tt),
                ),
              ),
            ),
          ),
        ),
      ),
    ),
  ),
)

echo_lines-HasValue :
    (buf : List ℕ) (o : Option ℕ) → 8 ≤ length buf → HasValue o → All HasValue (echo_lines buf o)
unfolding echo_lines
echo_lines-HasValue buf none h k = absurd k
echo_lines-HasValue buf (some ty) h k =
    if_cases (λ (ls : List (Option (List ℕ))). All HasValue ls) (ty == 8 || ty == 0)
      (λ _. (
        line-HasValue _ _ _ (be16-HasValue buf 4 (omega arith)),
        (line-HasValue _ _ _ (be16-HasValue buf 6 (omega arith)), tt),
      ))
      (λ _. tt)

icmp_HasValue : (buf : List ℕ) → HasValue (print_icmp buf)
unfolding print_icmp
icmp_HasValue buf = header_and_dump-HasValue _ buf _ λ h.
    let ty = get_elem?-HasValue buf 0 (omega arith) in
    (
      line-HasValue _ _ _ ty,
      (
        line-HasValue _ _ _ (get_elem?-HasValue buf 1 (omega arith)),
        (
          line-HasValue _ _ _ (be16-HasValue buf 2 (omega arith)),
          echo_lines-HasValue buf (get_elem? buf 0) h ty,
        ),
      ),
    )

datagram_HasValue : (buf : List ℕ) → HasValue (print_datagram buf)
unfolding print_datagram
datagram_HasValue buf = header_and_dump-HasValue _ buf _ λ h. (
  line-HasValue _ _ _ (be16-HasValue buf 0 (omega arith)),
  (
    line-HasValue _ _ _ (be16-HasValue buf 2 (omega arith)),
    (
      line-HasValue _ _ _ (be16-HasValue buf 4 (omega arith)),
      (line-HasValue _ _ _ (be16-HasValue buf 6 (omega arith)), tt),
    ),
  ),
)

-- What was there if the whole is.
value_of :
    {A B : Type 0} (o : Option A) (f : A → Option B)
    → HasValue (elim o as (λ x. Option B) [ none ↦ none | some a ↦ f a ])
    → (a : A) × (o ≡ some a) × HasValue (f a)
value_of none f h = absurd h
value_of (some a) f h = (a, refl, h)

each_value : (ls : List (Option (List ℕ))) → HasValue (all_lines ls) → All HasValue ls
unfolding all_lines
each_value [] h = tt
each_value (none ∷ ls) h = absurd h
each_value (some l ∷ ls) h =
    let (rest, e, _) = value_of (all_lines ls) _ h in (tt, each_value ls (rw e tt))

-- The header lies in the segment, and has its fixed part.
abbrev pub IsPrintable : List ℕ → ℕ → Type 0
IsPrintable seg hlen = (20 ≤ hlen) × (hlen ≤ length seg)

checked_sub-le : (a b : ℕ) → HasValue (checked_sub a b) → b ≤ a
unfolding checked_sub
checked_sub-le a b h = elim (Bool-cases (ltb a b)) [
  | inl e ↦ let gone : HasValue {A = ℕ} none = rw e at h in absurd gone
  | inr e ↦ ground arith
]

offset_line_iff :
    (seg : List ℕ) (off hlen : ℕ) → HasValue (offset_line seg off hlen) ↔ IsPrintable seg hlen
unfolding offset_line
offset_line_iff seg off hlen = (
  λ h.
      let (o, e, rest) = value_of (checked_sub hlen 20) _ h in
      let (p, e', _) = value_of (checked_sub (length seg) hlen) _ rest in
      (checked_sub-le hlen 20 (rw e tt), checked_sub-le (length seg) hlen (rw e' tt)),
  λ (a, b). then_HasValue (checked_sub hlen 20) _ (checked_sub-HasValue hlen 20 a) λ o.
      then_HasValue (checked_sub (length seg) hlen) _ (checked_sub-HasValue (length seg) hlen b)
        (λ p. tt),
)

header_lines-HasValue :
    (seg : List ℕ) (off hlen : ℕ)
    → 20 ≤ length seg
    → IsPrintable seg hlen
    → All HasValue (header_lines seg off hlen)
unfolding header_lines
header_lines-HasValue seg off hlen h fits = (
  line-HasValue _ _ _ (be16-HasValue seg 0 (omega arith)),
  (
    line-HasValue _ _ _ (be16-HasValue seg 2 (omega arith)),
    (
      line-HasValue _ _ _ (be32-HasValue seg 4 (omega arith)),
      (
        line-HasValue _ _ _ (be32-HasValue seg 8 (omega arith)),
        (
          (offset_line_iff seg off hlen).1 fits,
          (
            line-HasValue _ _ _ (get_elem?-HasValue seg 13 (omega arith)),
            (
              line-HasValue _ _ _ (be16-HasValue seg 14 (omega arith)),
              (
                line-HasValue _ _ _ (be16-HasValue seg 16 (omega arith)),
                (line-HasValue _ _ _ (be16-HasValue seg 18 (omega arith)), tt),
              ),
            ),
          ),
        ),
      ),
    ),
  ),
)

print_with_iff :
    (seg : List ℕ) (off hlen : ℕ)
    → 20 ≤ length seg
    → HasValue (print_with seg off hlen) ↔ IsPrintable seg hlen
unfolding print_with header_lines
print_with_iff seg off hlen h = (
  λ k.
      let (ls, e, _) = value_of (all_lines (header_lines seg off hlen)) _ k in
      let each = each_value (header_lines seg off hlen) (rw e tt) in
      (offset_line_iff seg off hlen).0 (each.1.1.1.1.0),
  λ fits.
      then_HasValue (all_lines (header_lines seg off hlen)) _
        (all_lines-HasValue (header_lines seg off hlen) (header_lines-HasValue seg off hlen h fits))
        λ ls.
          then_HasValue (print_options hlen seg hlen 0 20) _
            (print_options-HasValue hlen seg hlen 0 20 fits.1 (omega arith)) (λ os. tt),
)

get_elem?-byte_at : (buf : List ℕ) (i : ℕ) → i < length buf → get_elem? buf i ≡ some (byte_at buf i)
get_elem?-byte_at [] i h = absurd (omega arith)
get_elem?-byte_at (x ∷ xs) zero h = refl
get_elem?-byte_at (x ∷ xs) (suc i) h = get_elem?-byte_at xs i (omega arith)

segment_iff :
    (seg : List ℕ)
    → HasValue (print_segment seg) ↔ ((length seg < 20) ⊎ IsPrintable seg (hdr_len seg))
unfolding print_segment
segment_iff seg = elim (Bool-cases (ltb (length seg) 20)) [
  | inl e ↦
      let nothing : print_segment seg ≡ some [] = rw (e, print_segment) refl in
      (λ _. inl (ground arith), λ _. rw nothing tt)
  | inr e ↦
      let long : 20 ≤ length seg = ground arith in
      let off = byte_at seg 12 in
      let read = get_elem?-byte_at seg 12 (omega arith) in
      let opened : print_segment seg ≡ print_with seg off (hdr_len seg) =
        rw (e, read, print_segment) refl in
      let (there, back) = print_with_iff seg off (hdr_len seg) long in
      (
        λ k. inr (there (rw opened at k)),
        λ h. elim h [ inl short ↦ absurd (omega arith) | inr fits ↦ rw opened (back fits) ],
      )
]

-- For any buffer at all, `print` of Ethernet, ARP, IP, ICMP and UDP returns. That of TCP returns if
-- and only if the buffer is shorter than a header, or the header length that it gives is at least
-- 20 and within the buffer. A walk over options that does not end within the fuel does not return.
pub print-HasValue :
    (buf : List ℕ)
    → HasValue (print_frame buf)
      × HasValue (print_arp buf)
      × HasValue (print_packet buf)
      × HasValue (print_icmp buf)
      × HasValue (print_datagram buf)
      × (HasValue (print_segment buf) ↔ ((length buf < 20) ⊎ IsPrintable buf (hdr_len buf)))
print-HasValue buf = (
  frame_HasValue buf,
  arp_HasValue buf,
  packet_HasValue buf,
  icmp_HasValue buf,
  datagram_HasValue buf,
  segment_iff buf,
)
