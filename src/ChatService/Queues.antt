-- ===== src/ChatService/Queues.antt =====
-- What the channels of src/service/chat/service.go hold after more events.
use spacetrek.Prelude.{
  ◌≡◌, ◌≤◌, ◌∙◌, refl, sym, ap, ℕ, arith, Bool-cases, inl, inr, List, [], ◌∷◌, ◌++◌, append_assoc,
  append-nil, map, length-append, length-take, suc, zero, length, take, take_all, All, ltb,
}
use spacetrek.ChatService.{TimedEvent, Subscriber, offer, offer_all}

-- The queue of a subscriber after more events: the first 32.
abbrev pub fed : List TimedEvent → Subscriber → Subscriber
fed es s = record s { queue = take 32 (s.queue ++ es) }

abbrev pub Fits : Subscriber → Type 0
Fits s = length s.queue ≤ 32

take-take_append :
    {A : Type 0} (n : ℕ) (xs ys : List A) → take n (take n xs ++ ys) ≡ take n (xs ++ ys)
take-take_append zero xs ys = refl
take-take_append (suc n) [] ys = refl
take-take_append (suc n) (x ∷ xs) ys = ap (◌∷◌ x) (take-take_append n xs ys)

take_exact : {A : Type 0} (n : ℕ) (xs ys : List A) → length xs ≡ n → take n (xs ++ ys) ≡ xs
take_exact zero [] ys h = refl
take_exact zero (x ∷ xs) ys h = absurd (omega arith)
take_exact (suc n) [] ys h = absurd (omega arith)
take_exact (suc n) (x ∷ xs) ys h = ap (◌∷◌ x) (take_exact n xs ys (omega arith))

offer-fed : (e : TimedEvent) (s : Subscriber) → Fits s → offer e s ≡ fed (e ∷ []) s
unfolding offer
offer-fed e s h = elim (Bool-cases (ltb (length s.queue) 32)) [
  | inl q ↦ rw q (
      ap (λ xs. record s { queue = xs })
        (sym (
          take_all 32 (s.queue ++ e ∷ [])
            (let k = length-append s.queue (e ∷ []) in ground arith))))
  | inr q ↦
      rw q
        (ap (λ xs. record s { queue = xs }) (sym (take_exact 32 s.queue (e ∷ []) (ground arith))))
]

fed-Fits : (es : List TimedEvent) (s : Subscriber) → Fits (fed es s)
fed-Fits es s = omega (arith, length-take 32 (s.queue ++ es))

fed-fed : (es more : List TimedEvent) (s : Subscriber) → fed more (fed es s) ≡ fed (es ++ more) s
fed-fed es more s =
    ap (λ xs. record s { queue = xs })
      (take-take_append 32 (s.queue ++ es) more ∙ ap (take 32) (append_assoc s.queue es more))

fed_none : (s : Subscriber) → Fits s → fed [] s ≡ s
fed_none s h =
    ap (λ xs. record s { queue = xs }) (ap (take 32) (append-nil s.queue) ∙ take_all 32 s.queue h)

pub offer_all-fed :
    (e : TimedEvent) (ss : List Subscriber) → All Fits ss → offer_all e ss ≡ map (fed (e ∷ [])) ss
unfolding offer_all
offer_all-fed e [] h = refl
offer_all-fed e (s ∷ ss) (hs, h) = rw (offer-fed e s hs, offer_all-fed e ss h) refl

pub all_fed-Fits : (es : List TimedEvent) (ss : List Subscriber) → All Fits (map (fed es) ss)
all_fed-Fits es [] = tt
all_fed-Fits es (s ∷ ss) = (fed-Fits es s, all_fed-Fits es ss)

pub all_fed-fed :
    (es more : List TimedEvent) (ss : List Subscriber)
    → map (fed more) (map (fed es) ss) ≡ map (fed (es ++ more)) ss
all_fed-fed es more [] = refl
all_fed-fed es more (s ∷ ss) = rw (fed-fed es more s, all_fed-fed es more ss) refl

pub all_fed_none : (ss : List Subscriber) → All Fits ss → map (fed []) ss ≡ ss
all_fed_none [] h = refl
all_fed_none (s ∷ ss) (hs, h) = rw (fed_none s hs, all_fed_none ss h) refl
