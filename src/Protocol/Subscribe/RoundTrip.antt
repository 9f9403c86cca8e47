-- ===== src/Protocol/Subscribe/RoundTrip.antt =====
-- `decode_subscribe` ends on every packet, and reads back what `encode_subscribe` writes.
use mathlib.Core.List.{append_assoc, append-nil}
use haigosmart.Base.{
  ℕ, zero, suc, ◌+◌, ◌≤◌, ◌<◌, ◌≡◌, ◌≢◌, refl, ◌∙◌, sym, List, [], ◌∷◌, ◌++◌, arith, ltb, length,
  length-append, All, Result, ok, err, none, some, inl, inr, Bool-cases, Result-cases, Option-cases,
}
use haigosmart.Base.Bytes.{put_u16, u16-put_u16}
use haigosmart.Base.Text.{Str}
use haigosmart.Protocol.Error.{Error, subscribe_packet_id_truncated}
use haigosmart.Protocol.Wire.{
  Packet, read_string, append_string, uint16, type_subscribe, max_packet_size, read_packet,
}
use haigosmart.Protocol.Wire.RoundTrip.{
  IsAt, IsAt-start, IsAt-skip, read_string-append_string, read_packet-encode,
}
use haigosmart.Protocol.Subscribe.{topics_loop, decode_subscribe, append_filters, encode_subscribe}

read_string_moves :
    (b : List ℕ) (i : ℕ) (s : Str) (j : ℕ)
    → read_string b i ≡ ok (s, j)
    → (i + 2 ≤ j) × (j ≤ length b)
unfolding read_string
read_string_moves b i s j e = ground arith

topics_loop_total :
    (fuel : ℕ) (b : List ℕ) (i : ℕ) (topics : List Str)
    → length b ≤ i + fuel
    → topics_loop fuel b i topics ≢ none
unfolding topics_loop
topics_loop_total zero b i topics h = ground arith
topics_loop_total (suc fuel) b i topics h = elim (Result-cases (read_string b i)) [
  | inl ((s, j), e) ↦
      rw (e, topics_loop)
        (ground
          (arith, read_string_moves b i s j e, topics_loop_total fuel b (j + 1) (topics ++ s ∷ [])))
  | inr (x, e) ↦ rw (e, topics_loop) (ground arith)
]

-- `decode_subscribe` ends on every packet body: it returns the filters or an error.
pub decode_subscribe_total :
    (b : List ℕ) → (r : Result Error (ℕ × List Str)) × (decode_subscribe b ≡ some r)
unfolding decode_subscribe
decode_subscribe_total b = elim (Bool-cases (ltb (length b) 2)) [
  | inl short ↦ (err subscribe_packet_id_truncated, rw short)
  | inr long ↦ elim (Option-cases (topics_loop (length b) b 2 [])) [
    | inl stuck ↦ absurd (topics_loop_total (length b) b 2 [] (omega arith) stuck)
    | inr (ok topics, e) ↦ (ok (uint16 b, topics), rw long (rw e refl))
    | inr (err x, e) ↦ (err x, rw long (rw e refl))
  ]
]

-- What the filters add to the body.
abbrev filters : ℕ → List Str → List ℕ
filters qos [] = []
filters qos (topic ∷ topics) = append_string [] topic ++ (qos ∷ filters qos topics)

append_filters-filters :
    (body : List ℕ) (qos : ℕ) (topics : List Str)
    → append_filters body qos topics ≡ body ++ filters qos topics
unfolding append_filters append_string
append_filters-filters body qos [] = sym (append-nil body)
append_filters-filters body qos (topic ∷ topics) =
    append_filters-filters (append_string body topic ++ qos ∷ []) qos topics ∙ simp append_assoc

topics_loop-filters :
    (topics : List Str) (fuel : ℕ) (b : List ℕ) (i qos : ℕ) (before : List Str)
    → All (λ s. length s < 65536) topics
    → IsAt b i (filters qos topics)
    → length b ≤ i + fuel
    → topics_loop fuel b i before ≡ some (ok (before ++ topics))
unfolding topics_loop
topics_loop-filters [] zero b i qos before h a f = rw append-nil (ground (arith, a.within))
topics_loop-filters [] (suc fuel) b i qos before h a f = rw append-nil (ground (arith, a.within))
topics_loop-filters (t ∷ ts) zero b i qos before h a f =
    absurd (omega (arith, a.within, length-append (append_string [] t) (qos ∷ filters qos ts)))
topics_loop-filters (t ∷ ts) (suc fuel) b i qos before (ht, hts) a f =
    let (r, a₁) = read_string-append_string b i t (qos ∷ filters qos ts) ht a in
    let a₂ = IsAt-skip b (i + 2 + length t) (qos ∷ []) (filters qos ts) a₁ in
    rw (r, topics_loop)
      (ground (
        arith,
        a.within,
        a₁.within,
        topics_loop-filters ts fuel b (i + 2 + length t + 1) qos (before ++ t ∷ []) hts a₂,
        append_assoc before (t ∷ []) ts,
      ))

read :
    (id qos : ℕ) (topics : List Str)
    → id < 65536
    → All (λ s. length s < 65536) topics
    → decode_subscribe (put_u16 id ++ filters qos topics) ≡ some (ok (id, topics))
unfolding decode_subscribe
read id qos topics h ht =
    let b = put_u16 id ++ filters qos topics in
    rw
      (topics_loop-filters topics (length b) b 2 qos [] ht
        (IsAt-skip b 0 (put_u16 id) (filters qos topics) (IsAt-start b)) (omega arith))
      (rw (u16-put_u16 id h) (ground arith))

-- A SUBSCRIBE for topic filters shorter than 2 ^ 16 is read back: the packet, with the reserved flag
-- bits 0010, and from its body the packet id and the filters in their order.
pub decode_subscribe-encode_subscribe :
    (id qos : ℕ) (topics : List Str) (rest : List ℕ)
    → id < 65536
    → All (λ s. length s < 65536) topics
    → length (append_filters (put_u16 id) qos topics) ≤ max_packet_size
    → (p : Packet) × (read_packet (encode_subscribe id qos topics ++ rest) ≡ ok (p, rest))
      × (p.type ≡ type_subscribe)
      × (p.flags ≡ 2)
      × (decode_subscribe p.payload ≡ some (ok (id, topics)))
unfolding encode_subscribe
decode_subscribe-encode_subscribe id qos topics rest h ht small = (
  record { type = type_subscribe; flags = 2; payload = append_filters (put_u16 id) qos topics },
  read_packet-encode type_subscribe 2 _ rest (omega arith) (omega arith) small,
  refl,
  refl,
  rw (append_filters-filters (put_u16 id) qos topics) (read id qos topics h ht),
)
