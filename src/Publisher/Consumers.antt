-- ===== src/Publisher/Consumers.antt =====
-- What is read of a track reaches its consumers, and the reader ends with the last of them.
use conference_go.Common.{
  map, ℕ, ◌==◌, Bool, true, false, not, List, [], ◌∷◌, ◌++◌, ok, ◌≡◌, ◌≢◌, refl, ◌∙◌, inl, inr,
  arith, Bool-cases, sym, ap, subst, All, append_assoc, if◌then◌else◌,
}
use conference_go.Collection.{slice_remove_by_value}
use conference_go.Collection.Compact.{sift, kept_lem}
use conference_go.Publisher.{
  Reading, PublishedTrack, with_consumers, remove_consumer, on_rtp_packet, consume_each, consumes,
  has_one,
}

-- No consumer is there twice.
abbrev pub AreApart : List ℕ → Type 0
AreApart [] = Unit
AreApart (c ∷ cs) = All (λ x. x ≢ c) cs × AreApart cs

abbrev pub has_any : List ℕ → Bool
has_any [] = false
has_any (c ∷ cs) = true

-- The consumers differ, and the track is read exactly while it has one.
abbrev pub IsReader : PublishedTrack → Type 0
IsReader pt = AreApart pt.consumers × (pt.is_reading ≡ has_any pt.consumers)

All-append : (P : ℕ → Type 0) (l l' : List ℕ) → All P (l ++ l') → All P l × All P l'
All-append P [] l' h = (tt, h)
All-append P (x ∷ l) l' (p, h) = let (a, b) = All-append P l l' h in ((p, a), b)

append-All : (P : ℕ → Type 0) (l l' : List ℕ) → All P l → All P l' → All P (l ++ l')
append-All P [] l' h h' = h'
append-All P (x ∷ l) l' (p, h) h' = (p, append-All P l l' h h')

-- A consumer in the middle differs from those before and after it, which differ from each other.
apart_middle :
    (before : List ℕ) (c : ℕ) (after : List ℕ)
    → AreApart (before ++ c ∷ after)
    → All (λ x. x ≢ c) before × All (λ x. x ≢ c) after × AreApart (before ++ after)
apart_middle [] c after (h, hs) = (tt, h, hs)
apart_middle (x ∷ before) c after (h, hs) =
    let (a, b, d) = apart_middle before c after hs in
    let (l, (n, r)) = All-append (λ y. y ≢ x) before (c ∷ after) h in
    ((λ e. n (sym e), a), b, (append-All (λ y. y ≢ x) before after l r, d))

sift-others : (c : ℕ) (l : List ℕ) → All (λ x. x ≢ c) l → sift (λ v. not (v == c)) l ≡ l
sift-others c [] h = refl
sift-others c (x ∷ l) (n, h) = rw (differ, sift-others c l h) refl
  where
    differ : x == c ≡ false
    differ = ground (arith, n)

sift-append : (keep : ℕ → Bool) (l l' : List ℕ) → sift keep (l ++ l') ≡ sift keep l ++ sift keep l'
sift-append keep [] l' = refl
sift-append keep (x ∷ l) l' = ground (arith, sift-append keep l l')

slice_remove_by_value-sift :
    (c : ℕ) (cs : List ℕ) → slice_remove_by_value ◌==◌ cs true c ≡ sift (λ v. not (v == c)) cs
unfolding slice_remove_by_value
slice_remove_by_value-sift c [] = refl
slice_remove_by_value-sift c (x ∷ cs) = kept_lem (λ v. not (v == c)) (x ∷ cs) true

remove-middle :
    (before : List ℕ) (c : ℕ) (after : List ℕ)
    → All (λ x. x ≢ c) before
    → All (λ x. x ≢ c) after
    → slice_remove_by_value ◌==◌ (before ++ c ∷ after) true c ≡ before ++ after
remove-middle before c after l r =
    slice_remove_by_value-sift c (before ++ c ∷ after)
    ∙ sift-append (λ v. not (v == c)) before (c ∷ after)
    ∙ rw (sift-others c before l, same) (ap (λ m. before ++ m) (sift-others c after r))
  where
    same : c == c ≡ true
    same = ground arith

with_consumers-IsReader :
    (pt : PublishedTrack) (cs : List ℕ)
    → pt.is_reading ≡ true
    → AreApart cs
    → (pt' : PublishedTrack) × (with_consumers pt cs ≡ ok pt') × (pt'.consumers ≡ cs) × IsReader pt'
with_consumers-IsReader pt [] h a =
    (record pt { consumers = []; is_reading = false }, simp h, refl, (tt, refl))
with_consumers-IsReader pt (c ∷ cs) h a = (record pt { consumers = c ∷ cs }, refl, refl, (a, h))

-- The loop, with the consumers before it that do not stop.
consume_each-IsReader :
    (stops : ℕ → Reading → Bool) (x : Reading) (cs before : List ℕ) (pt : PublishedTrack)
    → pt.consumers ≡ before ++ cs
    → IsReader pt
    → (pt' : PublishedTrack) × (consume_each stops x cs pt ≡ ok (pt', map (λ c. (c, x)) cs))
      × (pt'.consumers ≡ before ++ sift (λ c. not (stops c x)) cs)
      × IsReader pt'
unfolding consume_each remove_consumer
consume_each-IsReader stops x [] before pt e h = (pt, refl, e, h)
consume_each-IsReader stops x (c ∷ cs) before pt e (a, h) = elim (Bool-cases (stops c x)) [
  | inl k ↦
      let (l, r, apart) = apart_middle before c cs (subst AreApart e a) in
      let removed =
        ap (λ m. slice_remove_by_value ◌==◌ m true c) e ∙ remove-middle before c cs l r in
      let (pt1, e1, q, h1) =
        with_consumers-IsReader pt (before ++ cs) (h ∙ ap has_any e ∙ has_any-middle before cs)
          apart in
      let (pt', e', q', h') = consume_each-IsReader stops x cs before pt1 q h1 in
      (pt', rw (k, removed, e1, e') refl, rw k q', h')
  | inr k ↦
      let (pt', e', q', h') =
        consume_each-IsReader stops x cs (before ++ c ∷ []) pt
          (e ∙ sym (append_assoc before (c ∷ []) cs)) (a, h) in
      (pt', rw (k, e') refl, rw k (q' ∙ append_assoc before (c ∷ []) _), h')
]
  where
    has_any-middle : (before cs : List ℕ) → has_any (before ++ c ∷ cs) ≡ true
    has_any-middle [] cs = refl
    has_any-middle (x ∷ before) cs = refl

-- What is read of a track that has its consumers, all different, and is read exactly while it has one:
-- each consumer is called once with it, in their order; those that stop are removed, the others stay in
-- their order, and the reader ends exactly if none is left. The channel that ends it is never closed
-- twice.
pub consumes_lem :
    (stops : ℕ → Reading → Bool) (x : Reading) (pt : PublishedTrack)
    → IsReader pt
    → (pt' : PublishedTrack) × (consumes stops x pt ≡ ok (pt', map (λ c. (c, x)) pt.consumers))
      × (pt'.consumers ≡ sift (λ c. not (stops c x)) pt.consumers)
      × IsReader pt'
unfolding consumes
consumes_lem stops x pt h = consume_each-IsReader stops x pt.consumers [] pt refl h

-- A new consumer is the last one, and the track is read from then on.
pub on_rtp_packet-IsReader :
    (c : ℕ) (pt : PublishedTrack)
    → IsReader pt
    → All (λ x. x ≢ c) pt.consumers
    → IsReader (on_rtp_packet c pt) × ((on_rtp_packet c pt).is_reading ≡ true)
unfolding on_rtp_packet
on_rtp_packet-IsReader c pt (a, h) n =
    let r = reads pt.consumers pt.is_reading h in
    ((snoc pt.consumers a n, r ∙ sym (has_any-snoc pt.consumers)), r)
  where
    snoc : (cs : List ℕ) → AreApart cs → All (λ x. x ≢ c) cs → AreApart (cs ++ c ∷ [])
    snoc [] a n = (tt, tt)
    snoc (x ∷ cs) (p, a) (q, n) =
        (append-All (λ y. y ≢ x) cs (c ∷ []) p (λ e. q (sym e), tt), snoc cs a n)

    has_any-snoc : (cs : List ℕ) → has_any (cs ++ c ∷ []) ≡ true
    has_any-snoc [] = refl
    has_any-snoc (x ∷ cs) = refl

    reads :
        (cs : List ℕ) (b : Bool)
        → b ≡ has_any cs
        → (if has_one (cs ++ c ∷ []) then true else b) ≡ true
    reads [] b e = refl
    reads (x ∷ []) b e = e
    reads (x ∷ y ∷ cs) b e = e
