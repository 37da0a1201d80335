-- ===== src/Serve/Sse/Chunks.antt =====
-- That the usage which hydralisk/serve/proxy.py finds does not depend on how a stream is cut between
-- characters.
use Prim.Native.Char.{code}
use mathlib.Core.Path.{subst}
use hydralisk.Prelude.{
  List, ◌++◌, ℕ, zero, suc, ◌-◌, ◌≤◌, ◌<◌, ◌≡◌, inl, inr, refl, sym, ap, ◌∙◌, arith, String, ◌&&◌,
  Option, none, some, ◌==◌, Option-cases, Bool-cases,
}
use hydralisk.Json.{Json}
use hydralisk.Serve.Sse.Utf8.{append, decode, IsWhole, decode-append}
use hydralisk.Serve.Sse.{
  size, split_event, capture_text, StreamState, drain, read_event, capture_stream_usage,
}

append_assoc_text : (r s t : String) → append (append r s) t ≡ append r (append s t)
append_assoc_text String.[] s t = refl
append_assoc_text (String.◌∷◌ c r) s t = ap (String.◌∷◌ c) (append_assoc_text r s t)

-- An event that is split off stays so when more text follows, and is split off for good.
split_event-append :
    (s t event rest : String)
    → split_event s ≡ some (event, rest)
    → (split_event (append s t) ≡ some (event, append rest t)) × (size rest < size s)
unfolding split_event
split_event-append String.[] t event rest e = absurd (cc)
split_event-append (String.◌∷◌ c String.[]) t event rest e = absurd (cc)
split_event-append (String.◌∷◌ c (String.◌∷◌ d s)) t event rest e =
    elim (Bool-cases (code c == 10 && code d == 10)) [
      | inl h ↦ ground (arith, h, e)
      | inr h ↦ elim (Option-cases (split_event (String.◌∷◌ d s))) [
        | inl n ↦ absurd (ground (arith, h, n, e))
        | inr ((event', rest'), f) ↦
            ground (arith, h, f, e, split_event-append (String.◌∷◌ d s) t event' rest' f)
      ]
    ]

split_event_short :
    (s event rest : String) → split_event s ≡ some (event, rest) → size rest < size s
split_event_short s event rest e = (split_event-append s String.[] event rest e).1

-- More fuel than the buffer's size makes no difference.
drain_enough :
    (loads : String → Option Json) (m k : ℕ) (st : StreamState)
    → size st.buffer ≤ m
    → size st.buffer ≤ k
    → drain loads m st ≡ drain loads k st
unfolding drain
drain_enough loads zero zero st hm hk = refl
drain_enough loads zero (suc k) st hm hk = elim (Option-cases (split_event st.buffer)) [
  | inl e ↦ ground (arith, e)
  | inr ((event, rest), e) ↦ absurd (omega (arith, split_event_short st.buffer event rest e, hm))
]
drain_enough loads (suc m) zero st hm hk = elim (Option-cases (split_event st.buffer)) [
  | inl e ↦ ground (arith, e)
  | inr ((event, rest), e) ↦ absurd (omega (arith, split_event_short st.buffer event rest e, hk))
]
drain_enough loads (suc m) (suc k) st hm hk = elim (Option-cases (split_event st.buffer)) [
  | inl e ↦ ground (arith, e)
  | inr ((event, rest), e) ↦
      let shorter = split_event_short st.buffer event rest e in
      let later =
        drain_enough loads m k (record { buffer = rest; usage = read_event loads st.usage event })
          (omega (arith, shorter, hm)) (omega (arith, shorter, hk)) in
      ground (arith, e, later)
]

drain_done :
    (loads : String → Option Json) (n : ℕ) (st : StreamState)
    → split_event st.buffer ≡ none
    → drain loads n st ≡ st
unfolding drain
drain_done loads zero st e = refl
drain_done loads (suc n) st e = ground (arith, e)

drain_next :
    (loads : String → Option Json) (n : ℕ) (st : StreamState) (event rest : String)
    → split_event st.buffer ≡ some (event, rest)
    → drain loads (suc n) st
      ≡ drain loads n (record { buffer = rest; usage = read_event loads st.usage event })
unfolding drain
drain_next loads n st event rest e = ground (arith, e)

drain_first :
    (loads : String → Option Json) (m : ℕ) (st : StreamState) (event rest : String)
    → split_event st.buffer ≡ some (event, rest)
    → 0 < m
    → drain loads m st
      ≡ drain loads (m - 1) (record { buffer = rest; usage = read_event loads st.usage event })
drain_first loads zero st event rest e h = absurd (omega arith)
drain_first loads (suc m) st event rest e h =
    drain_next loads m st event rest e
    ∙ ap (λ j. drain loads j (record { buffer = rest; usage = read_event loads st.usage event }))
        {x = m} (omega arith)

abbrev with_more : String → StreamState → StreamState
with_more t st = record st { buffer = append st.buffer t }

-- Draining before more text comes makes no difference.
drain-with_more :
    (loads : String → Option Json) (t : String) (n m k : ℕ) (st : StreamState)
    → size st.buffer ≤ n
    → size (append st.buffer t) ≤ m
    → size (append (drain loads n st).buffer t) ≤ k
    → drain loads m (with_more t st) ≡ drain loads k (with_more t (drain loads n st))
unfolding drain
drain-with_more loads t zero m k st hn hm hk = drain_enough loads m k (with_more t st) hm hk
drain-with_more loads t (suc n) m k st hn hm hk = elim (Option-cases (split_event st.buffer)) [
  | inl e ↦
      let same = drain_done loads (suc n) st e in
      drain_enough loads m k (with_more t st) hm (subst (λ u. size (append u.buffer t) ≤ k) same hk)
      ∙ ap (λ u. drain loads k (with_more t u)) (sym same)
  | inr ((event, rest), e) ↦
      let st' : StreamState = record { buffer = rest; usage = read_event loads st.usage event } in
      let next = drain_next loads n st event rest e in
      let (longer, shorter) = split_event-append st.buffer t event rest e in
      let fewer = split_event_short (append st.buffer t) event (append rest t) longer in
      drain_first loads m (with_more t st) event (append rest t) longer (omega (arith, fewer, hm))
      ∙ drain-with_more loads t n (m - 1) k st' (omega (arith, shorter, hn))
          (omega (arith, fewer, hm)) (subst (λ u. size (append u.buffer t) ≤ k) next hk)
      ∙ ap (λ u. drain loads k (with_more t u)) (sym next)
]

capture_text-append :
    (loads : String → Option Json) (xs ys : String) (st : StreamState)
    → capture_text loads (append xs ys) st ≡ capture_text loads ys (capture_text loads xs st)
unfolding capture_text
capture_text-append loads xs ys st =
    let b = append st.buffer xs in
    let st' : StreamState = record st { buffer = b } in
    ap (λ v. drain loads (size v) (record st { buffer = v }))
      (sym (append_assoc_text st.buffer xs ys))
    ∙ drain-with_more loads ys (size b) (size (append b ys))
        (size (append (drain loads (size b) st').buffer ys)) st' (omega arith) (omega arith)
        (omega arith)

-- Bytes of a stream that end between two characters may come in a chunk of their own: the usage that
-- is found is the same as if they came with what follows, and so is the text that waits for the rest
-- of its event.
pub capture_stream_usage-append :
    (loads : String → Option Json) (xs ys : List ℕ) (st : StreamState)
    → IsWhole xs
    → capture_stream_usage loads (xs ++ ys) st
      ≡ capture_stream_usage loads ys (capture_stream_usage loads xs st)
unfolding capture_stream_usage
capture_stream_usage-append loads xs ys st whole =
    ap (λ t. capture_text loads t st) (decode-append xs ys whole)
    ∙ capture_text-append loads (decode xs) (decode ys) st
