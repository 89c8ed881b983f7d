-- ===== src/Safety/Walls.antt =====
-- The four evaluator walls. The regular expressions, the lower case of a text and the query on the
-- published posts are the parameter `Oracle`.
use thread_pilot.Common.{
  ℕ, ◌-◌, ◌*◌, min, Bool, true, false, ◌&&◌, Option, none, some, List, [], ◌∷◌, leb, if◌then◌else◌,
  length, includes,
}

pub record Oracle : Type 0 where
  pub sha256 : List ℕ → List ℕ
  pub to_lower_case : List ℕ → List ℕ
  pub claim_matches : List ℕ → List (List ℕ)  -- all matches of the claim pattern
  pub insult_match : List ℕ → Option (List ℕ)  -- the first match of each toxic pattern
  pub offense_match : List ℕ → Option (List ℕ)
  pub recent_post : ℕ → ℕ → ℕ → List ℕ → Option ℕ  -- workspace, account, since, topic: its time

pub record ClaimWall : Type 0 where
  pub passed : Bool
  pub score : ℕ
  pub unsupported_claims : List (List ℕ)

pub record ToxicityWall : Type 0 where
  pub passed : Bool
  pub score : ℕ
  pub flagged_phrases : List (List ℕ)

pub record ComplianceWall : Type 0 where
  pub passed : Bool
  pub char_count : ℕ
  pub prohibited_topics_found : List (List ℕ)

pub record SpacingWall : Type 0 where
  pub passed : Bool
  pub matched_topic : Option (List ℕ)
  pub last_published_ago : Option ℕ

abbrev is_empty {ℓ} : {A : Type ℓ} → List A → Bool
is_empty [] = true
is_empty (_ ∷ _) = false

abbrev cons? {ℓ} : {A : Type ℓ} → Option A → List A → List A
cons? none xs = xs
cons? (some x) xs = x ∷ xs

module _ (o : Oracle) where
  -- The score is 0.25 for each claim without a source, at most 1, or else 0.05.
  unfoldable pub evaluate_claim_hallucination : List ℕ → List (List ℕ) → ℕ → ClaimWall
  evaluate_claim_hallucination text research_sources threshold =
      let matches = o.claim_matches text in
      let unsupported = if is_empty research_sources then matches else [] in
      let score = if is_empty unsupported then 5 else min 100 (length unsupported * 25) in
      record { passed = leb score threshold; score = score; unsupported_claims = unsupported }

  -- The score is 0.2 for each pattern that matches, at most 1.
  unfoldable pub evaluate_toxicity_brand_safety : List ℕ → ℕ → ToxicityWall
  evaluate_toxicity_brand_safety text threshold =
      let phrases = cons? (o.insult_match text) (cons? (o.offense_match text) []) in
      let score = if is_empty phrases then 0 else min 100 (length phrases * 20) in
      record { passed = leb score threshold; score = score; flagged_phrases = phrases }

  abbrev pub mentions : List ℕ → List ℕ → Bool
  mentions text topic = includes (o.to_lower_case text) (o.to_lower_case topic)

  unfoldable pub topics_found : List ℕ → List (List ℕ) → List (List ℕ)
  topics_found text [] = []
  topics_found text (topic ∷ topics) =
      let rest = topics_found text topics in if mentions text topic then topic ∷ rest else rest

  unfoldable pub evaluate_policy_compliance : List ℕ → List (List ℕ) → ComplianceWall
  evaluate_policy_compliance text prohibited_topics =
      let found = topics_found text prohibited_topics in
      record {
        passed = leb (length text) 500 && is_empty found;
        char_count = length text;
        prohibited_topics_found = found;
      }

  unfoldable pub first_topic : List ℕ → List (List ℕ) → Option (List ℕ)
  first_topic text [] = none
  first_topic text (topic ∷ topics) =
      if mentions text topic then some topic else first_topic text topics

  -- The cooldown of a flagged topic: 48 hours.
  abbrev pub cooldown_ms : ℕ
  cooldown_ms = 172800000

  unfoldable pub evaluate_sensitive_topic_spacing : ℕ → ℕ → ℕ → List ℕ → List (List ℕ) → SpacingWall
  evaluate_sensitive_topic_spacing now workspace account text flagged_topics =
      elim (first_topic text flagged_topics) [
        | none ↦ record { passed = true; matched_topic = none; last_published_ago = none }
        | some topic ↦ elim (o.recent_post workspace account (now - cooldown_ms) topic) [
          | some t ↦ record {
            passed = false;
            matched_topic = some topic;
            last_published_ago = some (now - t);
          }
          | none ↦ record { passed = true; matched_topic = some topic; last_published_ago = none }
        ]
      ]
