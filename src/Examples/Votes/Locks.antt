-- ===== src/Examples/Votes/Locks.antt =====
-- Two nodes of four validators that lock themselves, one validator of which votes twice.
unfoldable use native.Mathlib.Decide.{ℕ_discrete}
use mathlib.Core.Bool.{Bool-set}
use mathlib.Core.List.{Mem, not-mem-nil, eq-or-mem_of_mem-cons}
use mathlib.Core.Logic.Or
use native.Mathlib.Nat.{ℕ_set}
use vela_network.Examples.Setup.{crates}
use vela_network.Examples.Votes.{secret, validator, four, proposal, as_given, as_given-IsOrder}
use vela_network.Common.{
  ℕ, ◌≡◌, refl, ap, sym, ◌∙◌, true, false, none, some, List, [], ◌∷◌, map, arith, sub64, Text,
  replicate, All,
}
use vela_network.Common.Dict.{insert, text_discrete}
use vela_network.Common.Pigeonhole.{is_in}
use vela_network.Types.{Hash, Vote, QuorumCert, hash_zero, block_hash, sign_vote, verify_vote}
use vela_network.Consensus.{
  new_config, HotStuffNode, new_node, handle_propose, handle_vote, voter_key,
}
use vela_network.Consensus.Runs.{Run, here, next, gets_proposal, gets_vote}
use vela_network.Consensus.Receipts.{received}
use vela_network.Consensus.Intersection.{validator_key, IsProper, Consistent, Run-locks_agree}

abbrev of_key : ℕ → Hash → Vote
of_key k h = sign_vote crates h 0 (replicate 32 k)

abbrev by : ℕ → Vote
by k = of_key k (block_hash crates proposal)

-- The validator with the key of fives votes for another block, too.
abbrev double : Vote
double = of_key 5 hash_zero

abbrev start : HotStuffNode
start = new_node validator.address secret (new_config four)

abbrev ready : HotStuffNode
ready = (handle_propose crates start proposal none).0

ready_run : Run crates start ready
ready_run = next here (gets_proposal proposal none refl)

abbrev votes : HotStuffNode → List Vote → HotStuffNode
votes n [] = n
votes n (v ∷ vs) = (handle_vote crates as_given (votes n vs) v).0

votes_run : (vs : List Vote) → Run crates start (votes ready vs)
votes_run [] = ready_run
votes_run (v ∷ vs) = next (votes_run vs) (gets_vote as_given v as_given-IsOrder refl)

-- What each of the two is sent, the last vote first.
abbrev sent : List Vote
sent = by 8 ∷ by 7 ∷ by 5 ∷ by 8 ∷ by 7 ∷ by 5 ∷ []

abbrev sent' : List Vote
sent' = by 8 ∷ by 7 ∷ by 6 ∷ by 8 ∷ by 7 ∷ double ∷ []

abbrev lock : QuorumCert
lock = record {
  block_hash = block_hash crates proposal;
  round = 0;
  votes = by 5 ∷ by 7 ∷ by 8 ∷ [];
}

abbrev lock' : QuorumCert
lock' = record lock { votes = by 6 ∷ by 7 ∷ by 8 ∷ [] }

is_locked : (votes ready sent).locked_qc ≡ some lock
unfolding handle_vote handle_propose verify_vote sign_vote block_hash new_node text_discrete
    ℕ_discrete insert new_config sub64 crates
is_locked = refl

is_locked' : (votes ready sent').locked_qc ≡ some lock'
unfolding handle_vote handle_propose verify_vote sign_vote block_hash new_node text_discrete
    ℕ_discrete insert new_config sub64 crates
is_locked' = refl

of_all :
    (P : Vote → Type 0)
    → ((v : Vote) → IsProp (P v))
    → (vs : List Vote) → All P vs
    → (v : Vote) → Mem v vs
    → P v
of_all P prop [] h v found = absurd (not-mem-nil found)
of_all P prop (u ∷ us) h v found =
    Or.elim (prop v) (eq-or-mem_of_mem-cons found) (λ e. rw e h.0) (of_all P prop us h.1 v)

Hash_set : IsSet Hash
Hash_set = hlevel ℕ_set

abbrev faulty : List Text
faulty = secret ∷ []

abbrev Votes : Vote → Type 0
Votes v = is_in (voter_key crates v) faulty ≡ false → v.block_hash ≡ block_hash crates proposal

Votes-prop : (v : Vote) → IsProp (Votes v)
Votes-prop v = hlevel Hash_set

are_received : received crates (votes_run sent) ≡ sent
unfolding votes_run ready_run
are_received = refl

are_received' : received crates (votes_run sent') ≡ sent'
unfolding votes_run ready_run
are_received' = refl

sent-Votes : All Votes sent
unfolding sign_vote
sent-Votes = (λ _. refl, (λ _. refl, (λ _. refl, (λ _. refl, (λ _. refl, (λ _. refl, tt))))))

sent'-Votes : All Votes sent'
unfolding sign_vote is_in text_discrete ℕ_discrete crates
sent'-Votes = (λ _. refl, (λ _. refl, (λ _. refl, (λ _. refl, (λ _. refl, (λ e. cc, tt))))))

sent-Consistent :
    Consistent crates faulty (received crates (votes_run sent)) (received crates (votes_run sent'))
sent-Consistent u v in_u in_v _ _ same outside _ =
    of_all Votes Votes-prop sent sent-Votes u (rw are_received at in_u) outside
    ∙ sym (
        of_all Votes Votes-prop sent' sent'-Votes v (rw are_received' at in_v)
          (ap (λ k. is_in k faulty) (sym same) ∙ outside))

abbrev Named : Vote → Type 0
Named v = is_in (voter_key crates v) (map (validator_key crates) four) ≡ true

abbrev Uniform : Vote → Type 0
Uniform v = (v.block_hash ≡ block_hash crates proposal) × (v.round ≡ 0)

lock-IsProper : IsProper crates four lock
unfolding is_in crates sign_vote text_discrete ℕ_discrete
lock-IsProper = record {
  validators = of_all Named (λ v. Bool-set _ _) lock.votes (refl, (refl, (refl, tt)));
  uniform =
      of_all Uniform (λ v. hlevel (Hash_set, ℕ_set)) lock.votes
        ((refl, refl), ((refl, refl), ((refl, refl), tt)));
}

lock'-IsProper : IsProper crates four lock'
unfolding is_in crates sign_vote text_discrete ℕ_discrete
lock'-IsProper = record {
  validators = of_all Named (λ v. Bool-set _ _) lock'.votes (refl, (refl, (refl, tt)));
  uniform =
      of_all Uniform (λ v. hlevel (Hash_set, ℕ_set)) lock'.votes
        ((refl, refl), ((refl, refl), ((refl, refl), tt)));
}

Run-locks_agree_example : lock.block_hash ≡ lock'.block_hash
unfolding new_config sub64
Run-locks_agree_example =
    Run-locks_agree crates four faulty (omega arith) (omega arith) refl (omega arith)
      validator.address validator.address secret secret lock lock' (votes_run sent)
      (votes_run sent') sent-Consistent is_locked is_locked' lock-IsProper lock'-IsProper refl
