-- ===== src/Dns/Exchange/Answers.antt =====
-- Who answers a question, whatever the order is in which the results of the race arrive.
use mathlib.Core.List.{Permᴰ}
use sni_shaper_linux.Prelude.{
  ℕ, zero, suc, ◌≤◌, ◌≡◌, ◌⊎◌, inl, inr, refl, ◌∙◌, subst, Option, none, some, List, [], ◌∷◌, map,
  arith, length, All, IsIn,
}
use sni_shaper_linux.Rules.Types.{DnsNode}
use sni_shaper_linux.Dns.Message.{Msg, Outside}
use sni_shaper_linux.Dns.Exchange.{
  exchange_node, Race, won, cancelled, lost, race, after_race, after_primary, active_nodes,
  system_exchange, exchange_among, exchange,
}

-- The answer, of the results of the active nodes in order, and the system's.
abbrev pub Answers : List (Option Msg) → Option Msg → Option Msg → Type 0
Answers [] system r = r ≡ system
Answers (some m ∷ others) system r = r ≡ some m
Answers (none ∷ others) system r =
    ((m : Msg) × (IsIn (some m) others × (r ≡ some m)))
    ⊎ (All (λ o. o ≡ none) others × (r ≡ system))

-- The same of the race alone.
abbrev Wins : List (Option Msg) → Race → Type 0
Wins rs (won m) = IsIn (some m) rs
Wins rs cancelled = ⊥
Wins rs lost = All (λ o. o ≡ none) rs

Wins-cons : (rs : List (Option Msg)) (r : Race) → Wins rs r → Wins (none ∷ rs) r
Wins-cons rs (won m) h = inr h
Wins-cons rs cancelled h = h
Wins-cons rs lost h = (refl, h)

race-Wins : (rs : List (Option Msg)) (left : ℕ) → length rs ≤ left → Wins rs (race rs left)
unfolding race
race-Wins [] left h = tt
race-Wins (r ∷ rs) zero h = absurd (omega arith)
race-Wins (some m ∷ rs) (suc left) h = inl refl
race-Wins (none ∷ rs) (suc left) h = Wins-cons rs (race rs left) (race-Wins rs left (omega arith))

module _ {A : Type 0} where
  Perm-IsIn : {xs ys : List A} (x : A) → Permᴰ xs ys → IsIn x xs → IsIn x ys
  Perm-IsIn x Permᴰ.nil h = h
  Perm-IsIn x (Permᴰ.cons e p) (inl h) = inl (h ∙ e)
  Perm-IsIn x (Permᴰ.cons e p) (inr h) = inr (Perm-IsIn x p h)
  Perm-IsIn x (Permᴰ.swap e f) (inl h) = inr (inl (h ∙ e))
  Perm-IsIn x (Permᴰ.swap e f) (inr (inl h)) = inl (h ∙ f)
  Perm-IsIn x (Permᴰ.swap e f) (inr (inr h)) = inr (inr h)
  Perm-IsIn x (Permᴰ.trans p q) h = Perm-IsIn x q (Perm-IsIn x p h)

  Perm-All : (P : A → Type 0) {xs ys : List A} → Permᴰ xs ys → All P xs → All P ys
  Perm-All P Permᴰ.nil h = h
  Perm-All P (Permᴰ.cons e p) (h, hs) = (subst P e h, Perm-All P p hs)
  Perm-All P (Permᴰ.swap e f) (h, (k, hs)) = (subst P f k, (subst P e h, hs))
  Perm-All P (Permᴰ.trans p q) h = Perm-All P q (Perm-All P p h)

after_primary-Answers :
    (o : Option Msg) (rs arrivals : List (Option Msg)) (r : Race) (system : Option Msg)
    → Permᴰ arrivals rs
    → Wins arrivals r
    → Answers (o ∷ rs) system (after_primary o r system)
unfolding after_primary after_race
after_primary-Answers (some m) rs arrivals r system p h = refl
after_primary-Answers none rs arrivals (won m) system p h = inl (m, (Perm-IsIn (some m) p h, refl))
after_primary-Answers none rs arrivals cancelled system p h = absurd h
after_primary-Answers none rs arrivals lost system p h = inr (Perm-All (λ o. o ≡ none) p h, refl)

-- What the nodes answer, each asked alone.
abbrev pub results : Outside → List DnsNode → Msg → List DnsNode → List (Option Msg)
results w nodes msg asked = map (λ n. (exchange_node w nodes n msg).0) asked

abbrev pub behind_first : List DnsNode → List DnsNode
behind_first [] = []
behind_first (n ∷ nodes) = nodes

exchange_among-Answers :
    (w : Outside) (nodes active : List DnsNode) (arrivals : List (Option Msg)) (left : ℕ)
    (msg : Msg)
    → Permᴰ arrivals (results w nodes msg (behind_first active))
    → length arrivals ≤ left
    → Answers
        (results w nodes msg active)
        (system_exchange w msg)
        (exchange_among w nodes active arrivals left msg)
unfolding exchange_among
exchange_among-Answers w nodes [] arrivals left msg p h = refl
exchange_among-Answers w nodes (primary ∷ others) arrivals left msg p h =
    after_primary-Answers (exchange_node w nodes primary msg).0 (results w nodes msg others)
      arrivals (race arrivals left) (system_exchange w msg) p (race-Wins arrivals left h)

-- In whatever order the results of the nodes behind the first one arrive, where the context does not end
-- before they do: if the first active node answers, its message is returned; if it does not and another
-- one does, a message of an active node that answers is; only if no active node answers is it what the
-- system says.
pub exchange-Answers :
    (w : Outside) (nodes : List DnsNode) (arrivals : List (Option Msg)) (left : ℕ) (msg : Msg)
    → Permᴰ arrivals (results w nodes msg (behind_first (active_nodes nodes)))
    → length arrivals ≤ left
    → Answers
        (results w nodes msg (active_nodes nodes))
        (system_exchange w msg)
        (exchange w nodes arrivals left msg)
unfolding exchange
exchange-Answers w nodes arrivals left msg p h =
    exchange_among-Answers w nodes (active_nodes nodes) arrivals left msg p h
