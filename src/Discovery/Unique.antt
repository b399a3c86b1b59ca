-- ===== src/Discovery/Unique.antt =====
-- internal/discovery/udp.go: Browse beside a description of its result.
use mingyue_go.Base.{
  Bool, Bool-cases, Dict, List, Option, Option-cases, Text, [], ap, append-nil, append_assoc, arith,
  false, inl, inr, insert, lookup, lookup-insert, none, not, refl, select, some, sym, text_eq,
  text_eq_iff, true, ◌&&◌, ◌++◌, ◌∙◌, ◌∷◌, ◌≡◌,
}
use mingyue_go.Errors.{ok}
use mingyue_go.Discovery.{AgentInfo, expired, Socket, agent_key, is_seen, collect, browse}

-- The agents of the datagrams that can be decoded.
unfoldable pub heard : (Text → Option AgentInfo) → List Text → List AgentInfo
heard decode [] = []
heard decode (d ∷ ds) = elim (decode d) [
  | none ↦ heard decode ds
  | some info ↦ info ∷ heard decode ds
]

abbrev pub differs : AgentInfo → AgentInfo → Bool
differs a b = not (text_eq (agent_key a) (agent_key b))

-- The first agent of each key.
unfoldable pub firsts : List AgentInfo → List AgentInfo
firsts [] = []
firsts (a ∷ rest) = a ∷ select (differs a) (firsts rest)

-- Not yet seen.
abbrev fresh : Dict Bool → AgentInfo → Bool
fresh seen a = not (is_seen (agent_key a) seen)

select-select :
    (p q r : AgentInfo → Bool)
    → ((a : AgentInfo) → r a ≡ (p a && q a))
    → (xs : List AgentInfo) → select r xs ≡ select p (select q xs)
select-select p q r h [] = refl
select-select p q r h (x ∷ xs) = ground (arith, h x, select-select p q r h xs)

fresh-insert :
    (seen : Dict Bool) (b a : AgentInfo)
    → fresh (insert (agent_key b) true seen) a ≡ (fresh seen a && differs b a)
unfolding is_seen
fresh-insert seen b a = ground (arith, lookup-insert (agent_key b) (agent_key a) true seen)

-- What was seen holds of an equal key.
differs_seen :
    (seen : Dict Bool) (b a : AgentInfo)
    → is_seen (agent_key b) seen ≡ true
    → fresh seen a ≡ (fresh seen a && differs b a)
unfolding is_seen
differs_seen seen b a h = ground (arith, text_eq_iff (agent_key b) (agent_key a))

-- What the agents after `b` add, where `b` was seen and where it was not.
firsts_seen :
    (seen : Dict Bool) (b : AgentInfo) (xs : List AgentInfo)
    → is_seen (agent_key b) seen ≡ true
    → select (fresh seen) (b ∷ select (differs b) xs) ≡ select (fresh seen) xs
firsts_seen seen b xs h = ground (
  arith,
  h,
  select-select (fresh seen) (differs b) (fresh seen) (λ a. differs_seen seen b a h) xs,
)

firsts_new :
    (seen : Dict Bool) (b : AgentInfo) (xs : List AgentInfo)
    → is_seen (agent_key b) seen ≡ false
    → select (fresh seen) (b ∷ select (differs b) xs)
      ≡ b ∷ select (fresh (insert (agent_key b) true seen)) xs
firsts_new seen b xs h = ground (
  arith,
  h,
  select-select (fresh seen) (differs b) (fresh (insert (agent_key b) true seen))
      (fresh-insert seen b) xs,
)

collect-firsts :
    (decode : Text → Option AgentInfo) (ds : List Text) (seen : Dict Bool)
    (results : List AgentInfo)
    → collect decode ds seen results ≡ results ++ select (fresh seen) (firsts (heard decode ds))
unfolding collect heard firsts
collect-firsts decode [] seen results = sym (append-nil results)
collect-firsts decode (d ∷ ds) seen results = elim (Option-cases (decode d)) [
  | inl e ↦ rw (e, collect, heard) (collect-firsts decode ds seen results)
  | inr (info, e) ↦
      rw (e, collect, heard)
        (elim (Bool-cases (is_seen (agent_key info) seen)) [
          | inl s ↦
              ap
                (λ b. elim b [
                  | true ↦ collect decode ds seen results
                  | false ↦
                      collect decode ds (insert (agent_key info) true seen) (results ++ info ∷ [])
                ])
                s
              ∙ collect-firsts decode ds seen results
              ∙ ap (λ l. results ++ l) (sym (firsts_seen seen info (firsts (heard decode ds)) s))
          | inr s ↦
              ap
                (λ b. elim b [
                  | true ↦ collect decode ds seen results
                  | false ↦
                      collect decode ds (insert (agent_key info) true seen) (results ++ info ∷ [])
                ])
                s
              ∙ collect-firsts decode ds (insert (agent_key info) true seen) (results ++ info ∷ [])
              ∙ append_assoc results (info ∷ []) _
              ∙ ap (λ l. results ++ l) (sym (firsts_new seen info (firsts (heard decode ds)) s))
        ])
]

all_fresh : (xs : List AgentInfo) → select (fresh []) xs ≡ xs
unfolding is_seen lookup
all_fresh [] = refl
all_fresh (x ∷ xs) = ap (λ l. x ∷ l) (all_fresh xs)

-- Where the socket is opened and its deadline ends the reads, Browse returns, of all the agents
-- that were heard, the first one of each key, in the order in which they were heard; what cannot
-- be decoded is passed over.
pub browse-firsts :
    (decode : Text → Option AgentInfo) (socket : Socket)
    → socket.listen ≡ none
    → socket.set_deadline ≡ none
    → socket.end ≡ expired
    → browse decode socket ≡ ok (firsts (heard decode socket.datagrams))
unfolding browse
browse-firsts decode socket l s e = ground (
  arith,
  collect-firsts decode socket.datagrams [] [],
  all_fresh (firsts (heard decode socket.datagrams)),
)
