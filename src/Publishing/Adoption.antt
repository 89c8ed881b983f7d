-- ===== src/Publishing/Adoption.antt =====
-- What the recovery adopts is a post that the feed showed.
use thread_pilot.Common.{
  ℕ, zero, suc, ◌≡◌, refl, ap, ◌⊎◌, inl, inr, Bool, true, false, Option, none, some, List, [], ◌∷◌,
  ◌++◌, list_eq, if◌then◌else◌, All, arith, Option-cases,
}
use thread_pilot.Publishing.Effect.{
  Env, State, M, Outcome, value, thrown, returned, killed, out_of_fuel, Exn, FeedItem, FeedPage,
  ◌>>=◌, ◌>>◌, run, pure, throw, case_option, try_catch, ask, continue_with, handle_with,
}
use thread_pilot.Publishing.Text.{canonical_outbound_text}
use thread_pilot.Publishing.Recovery.{
  Candidate, is_near, candidate?, candidates, more_pages, choose, feed_page, feed_pages,
  recover_from_feed,
}

abbrev pub Among : FeedItem → List FeedItem → Type 0
Among p [] = ⊥
Among p (q ∷ qs) = (p ≡ q) ⊎ Among p qs

-- The item has the text of the post and stands near the time of the request.
pub record Fits (sha256 : List ℕ → List ℕ) (hash : List ℕ) (reference_time : ℕ) (p : FeedItem)
    (c : Candidate) : Type 0 where
  pub same_id : p.id ≡ c.id
  pub text_post : p.is_text_post ≡ true
  pub same_hash : list_eq (sha256 (canonical_outbound_text p.text)) hash ≡ true
  pub same_time : p.timestamp ≡ some c.timestamp
  pub near : is_near c.timestamp reference_time ≡ true

-- Some answer of the feed has an item that fits.
abbrev pub Shown : Env → List ℕ → ℕ → Candidate → Type 0
Shown env hash reference_time c =
    (n : ℕ) × (page : FeedPage) × (page ≡ env.user_posts n)
    × (p : FeedItem) × Among p page.items
    × Fits env.sha256 hash reference_time p c

-- What holds of the value, if there is one.
abbrev Gives : {A : Type 0} → (A → Type 0) → Outcome A → Type 0
Gives Q (value a) = Q a
Gives Q (thrown e) = Unit
Gives Q returned = Unit
Gives Q killed = Unit
Gives Q out_of_fuel = Unit

record Yields {A : Type 0} (Q : A → Type 0) (m : M A) : Type 0 where
  at : (s : State) → Gives Q (run m s).0

module _ {A : Type 0} {Q : A → Type 0} where
  Yields-pure : (a : A) → Q a → Yields Q (pure a)
  unfolding pure
  Yields-pure a q = record { at = λ s. q }

  Yields-if : (b : Bool) (m n : M A) → Yields Q m → Yields Q n → Yields Q (if b then m else n)
  Yields-if true m n km kn = km
  Yields-if false m n km kn = kn

  handled-Gives :
      (h : Exn → M A) (r : Outcome A) (s : State)
      → Gives Q r
      → ((e : Exn) → Yields Q (h e))
      → Gives Q (handle_with h (r, s)).0
  handled-Gives h (value a) s q k = q
  handled-Gives h (thrown e) s q k = (k e).at s
  handled-Gives h returned s q k = tt
  handled-Gives h killed s q k = tt
  handled-Gives h out_of_fuel s q k = tt

  Yields-try :
      (m : M A) (h : Exn → M A)
      → Yields Q m
      → ((e : Exn) → Yields Q (h e))
      → Yields Q (try_catch m h)
  unfolding try_catch
  Yields-try m h km kh = record {
    at = λ s. let (r, s') = run m s in handled-Gives h r s' (km.at s) kh;
  }

module _ {A B : Type 0} {R : A → Type 0} {Q : B → Type 0} where
  continued-Gives :
      (f : A → M B) (r : Outcome A) (s : State)
      → Gives R r
      → ((a : A) → R a → Yields Q (f a))
      → Gives Q (continue_with f (r, s)).0
  continued-Gives f (value a) s g k = (k a g).at s
  continued-Gives f (thrown e) s g k = tt
  continued-Gives f returned s g k = tt
  continued-Gives f killed s g k = tt
  continued-Gives f out_of_fuel s g k = tt

  Yields-bind :
      (m : M A) (f : A → M B) → Yields R m → ((a : A) → R a → Yields Q (f a)) → Yields Q (m >>= f)
  unfolding ◌>>=◌
  Yields-bind m f km kf = record {
    at = λ s. let (r, s') = run m s in continued-Gives f r s' (km.at s) kf;
  }

anything : {A : Type 0} (m : M A) → Yields (λ a. Unit) m
anything {A = A} m = record { at = λ s. given (run m s).0 }
  where
    given : (r : Outcome A) → Gives (λ a. Unit) r
    given (value a) = tt
    given (thrown e) = tt
    given returned = tt
    given killed = tt
    given out_of_fuel = tt

Yields-then : {A B : Type 0} {Q : B → Type 0} (m : M A) (k : M B) → Yields Q k → Yields Q (m >> k)
unfolding ◌>>◌
Yields-then m k kk = record {
  at = λ s. let (r, s') = run m s in continued-Gives (λ _. k) r s' ((anything m).at s) (λ a u. kk);
}

All-append : {A : Type 0} (Q : A → Type 0) (xs ys : List A) → All Q xs → All Q ys → All Q (xs ++ ys)
All-append Q [] ys p q = q
All-append Q (x ∷ xs) ys p q = (p.0, All-append Q xs ys p.1 q)

module _ (env : Env) (hash : List ℕ) (reference_time : ℕ) where
  candidate-Fits :
      (p : FeedItem) (c : Candidate)
      → candidate? env.sha256 hash reference_time p ≡ some c
      → Fits env.sha256 hash reference_time p c
  unfolding candidate?
  candidate-Fits p c h = record {
    same_id = ground arith;
    text_post = ground arith;
    same_hash = ground arith;
    same_time = ground arith;
    near = ground arith;
  }

  abbrev FitsOne : List FeedItem → Candidate → Type 0
  FitsOne ps c = (p : FeedItem) × Among p ps × Fits env.sha256 hash reference_time p c

  widen :
      (q : FeedItem) (ps : List FeedItem) (cs : List Candidate)
      → All (FitsOne ps) cs
      → All (FitsOne (q ∷ ps)) cs
  widen q ps [] h = tt
  widen q ps (c ∷ cs) h = ((h.0.0, inr h.0.1, h.0.2), widen q ps cs h.1)

  candidates-FitsOne :
      (ps : List FeedItem) → All (FitsOne ps) (candidates env.sha256 hash reference_time ps)
  unfolding candidates
  candidates-FitsOne [] = tt
  candidates-FitsOne (p ∷ ps) =
      let rest = widen p ps _ (candidates-FitsOne ps) in
      elim (Option-cases (candidate? env.sha256 hash reference_time p)) [
        | inl none_fits ↦ rw none_fits rest
        | inr (c, is_c) ↦ rw is_c ((p, inl refl, candidate-Fits p c is_c), rest)
      ]

  abbrev Answer : Option FeedPage → Type 0
  Answer none = Unit
  Answer (some page) = (n : ℕ) × (page ≡ env.user_posts n)

  page_shows :
      (n : ℕ) (page : FeedPage) (cs : List Candidate)
      → page ≡ env.user_posts n
      → All (FitsOne page.items) cs
      → All (Shown env hash reference_time) cs
  page_shows n page [] e h = tt
  page_shows n page (c ∷ cs) e h = ((n, page, e, h.0.0, h.0.1, h.0.2), page_shows n page cs e h.1)

  ask_page-Yields : Yields (λ page. (n : ℕ) × (page ≡ env.user_posts n)) (ask env env.user_posts)
  unfolding ask
  ask_page-Yields = Yields-bind _ _ (anything _) (λ n u. Yields-then _ _ (Yields-pure _ (n, refl)))

  module _ (deadline : ℕ) where
    feed_page-Yields : Yields Answer (feed_page env hash reference_time deadline)
    unfolding feed_page
    feed_page-Yields =
        Yields-try _ _ (Yields-bind _ _ ask_page-Yields (λ page u. Yields-pure (some page) u))
          (λ e. Yields-pure none tt)

    abbrev AllShown : List Candidate → Type 0
    AllShown cs = All (Shown env hash reference_time) cs

    next_page :
        (n : ℕ) (found : List Candidate) (answer : Option FeedPage)
        → ((more : List Candidate)
            → AllShown more
            → Yields AllShown (feed_pages env hash reference_time deadline n more))
        → AllShown found
        → Answer answer
        → Yields AllShown (
            case_option answer (pure found) (λ page.
              let found' = found ++ candidates env.sha256 hash reference_time page.items in
              let rest = feed_pages env hash reference_time deadline n found' in
              if more_pages page reference_time then rest else pure found'))
    unfolding case_option
    next_page n found none rest h u = Yields-pure found h
    next_page n found (some page) rest h (k, e) =
        let shown =
          All-append (Shown env hash reference_time) found _ h
            (page_shows k page _ e (candidates-FitsOne page.items)) in
        Yields-if _ _ _ (rest _ shown) (Yields-pure _ shown)

    feed_pages-Yields :
        (n : ℕ) (found : List Candidate)
        → AllShown found
        → Yields AllShown (feed_pages env hash reference_time deadline n found)
    unfolding feed_pages
    feed_pages-Yields zero found h = Yields-pure found h
    feed_pages-Yields (suc n) found h = Yields-bind _ _ (anything _) (λ now u.
        Yields-if _ _ _ (Yields-pure found h) (
          Yields-bind _ _ feed_page-Yields
            (λ answer v. next_page n found answer (feed_pages-Yields n) h v)))

    abbrev Adopted : Option Candidate → Type 0
    Adopted none = Unit
    Adopted (some c) = Shown env hash reference_time c

    choose-Yields : (cs : List Candidate) → AllShown cs → Yields Adopted (choose cs)
    unfolding choose throw
    choose-Yields [] h = Yields-pure none tt
    choose-Yields (c ∷ []) h = Yields-pure (some c) h.0
    choose-Yields (c ∷ d ∷ cs) h = record { at = λ s. tt }

    recover-Yields : Yields Adopted (recover_from_feed env hash reference_time deadline)
    unfolding recover_from_feed
    recover-Yields = Yields-bind _ _ (feed_pages-Yields 3 [] tt) choose-Yields

-- A post that `recoverFromFeed` adopts was an item of some answer of the feed: a text post whose
-- canonical text has the expected hash, with the adopted identifier and time, at most 180 seconds
-- from the reference time.
pub recover_from_feed-Shown :
    (env : Env) (hash : List ℕ) (reference_time deadline : ℕ) (s s' : State) (c : Candidate)
    → run (recover_from_feed env hash reference_time deadline) s ≡ (value (some c), s')
    → Shown env hash reference_time c
recover_from_feed-Shown env hash t deadline s s' c h =
    adopted (run (recover_from_feed env hash t deadline) s).0
      ((recover-Yields env hash t deadline).at s) (ap (λ r. r.0) h)
  where
    adopted :
        (r : Outcome (Option Candidate))
        → Gives (Adopted env hash t deadline) r
        → r ≡ value (some c)
        → Shown env hash t c
    adopted r g e = rw e at g
