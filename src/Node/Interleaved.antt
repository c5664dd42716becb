-- ===== src/Node/Interleaved.antt =====
-- The tasks of src/main.rs between the sections of the requests to the server of src/rpc/mod.rs.
use vela_network.Common.{ℕ, zero, suc, ◌≡◌, refl, List, [], ◌∷◌, Text, add64, Bool-cases, inl, inr}
use vela_network.Common.Dict.{Dict}
use vela_network.Types.{Crates, Transaction, Block}
use vela_network.State.{mark_faucet}
use vela_network.Storage.{Sled}
use vela_network.Rpc.{SendTxRequest, is_pooled, check_faucet}
use vela_network.Rpc.Requests.{Outcome-cases}
use vela_network.Rpc.Sections.{
  Task, faucet_asked, faucet_allowed, faucet_made, tx_asked, tx_checked, admitted, pooled, answered,
  check_request, advance,
}
use vela_network.Rpc.Interleavings.{turn, hash_text}
use vela_network.Node.Defs.{Node, NetworkMessage, append_block, tip_height, broadcast, send}
use vela_network.Node.Steps.{Keeps, Step, Run_inv, here, next}
use vela_network.Node.Consistency.{IsConsistent, Keeps-IsConsistent, append_block-IsConsistent}

module _ {Db Val : Type 0} (x : Crates) (s : Sled Db Val) where
  -- A run of a node and of the requests that are on their way: a step of the node, a request that
  -- arrives, or the next section of one of them.
  pub data FineRun (n : Node Db) (ts : List Task) : Node Db → List Task → Type 0 where
    at_start : FineRun n ts n ts
    steps : {m k : Node Db} {us : List Task} → FineRun n ts m us → Step x s m k → FineRun n ts k us
    asks_faucet :
        {m : Node Db} {us : List Task} (address : Text)
        → FineRun n ts m us
        → FineRun n ts m (faucet_asked address ∷ us)
    asks_tx :
        {m : Node Db} {us : List Task} (req : SendTxRequest)
        → FineRun n ts m us
        → FineRun n ts m (tx_asked req ∷ us)
    advances :
        {m : Node Db} {us : List Task} (i now stamp : ℕ)
        → FineRun n ts m us
        → FineRun n ts (turn x s i now stamp m us).0 (turn x s i now stamp m us).1

  -- What writes the pool, the cooldowns and what is sent only.
  writes :
      (n : Node Db) (pool : List Transaction) (cooldowns : Dict ℕ) (sent : List NetworkMessage)
      → Keeps x s n (record n {
        mempool = pool;
        world_state = record n.world_state { faucet_last = cooldowns };
        outbox = sent;
      })
  writes n pool cooldowns sent = record { blocks = refl; world_state = refl; db = refl }

  advance-Keeps :
      (now stamp : ℕ) (n : Node Db) (t : Task) → Keeps x s n (advance x s now stamp n t).0
  unfolding advance mark_faucet broadcast send
  advance-Keeps now stamp n (faucet_asked a) =
      elim (Outcome-cases (check_faucet x s now n.world_state a)) [
        | inl (to, e) ↦ rw (e, advance) (writes n _ _ _)
        | inr (r, e) ↦ rw (e, advance) (writes n _ _ _)
      ]
  advance-Keeps now stamp n (faucet_allowed a to) = writes n _ _ _
  advance-Keeps now stamp n (faucet_made a tx) = writes n _ _ _
  advance-Keeps now stamp n (tx_asked req) =
      elim (Outcome-cases (check_request x s stamp n.world_state req)) [
        | inl (tx, e) ↦ rw (e, advance) (writes n _ _ _)
        | inr (r, e) ↦ rw (e, advance) (writes n _ _ _)
      ]
  advance-Keeps now stamp n (tx_checked tx) =
      elim (Bool-cases (is_pooled x s (hash_text x s tx) n.mempool)) [
        | inl e ↦ rw (e, advance) (writes n _ _ _)
        | inr e ↦ rw (e, advance) (writes n _ _ _)
      ]
  advance-Keeps now stamp n (admitted tx) = writes n _ _ _
  advance-Keeps now stamp n (pooled tx) = writes n _ _ _
  advance-Keeps now stamp n (answered a) = writes n _ _ _

  turn-Keeps :
      (i now stamp : ℕ) (n : Node Db) (ts : List Task) → Keeps x s n (turn x s i now stamp n ts).0
  turn-Keeps i now stamp n [] = writes n _ _ _
  turn-Keeps zero now stamp n (t ∷ ts) = advance-Keeps now stamp n t
  turn-Keeps (suc i) now stamp n (t ∷ ts) = turn-Keeps i now stamp n ts

  -- The rule of Node/Steps, for runs of this kind.
  FineRun_inv {ℓ} :
      (P : Node Db → Type ℓ)
      → ((n n' : Node Db) → Keeps x s n n' → P n → P n')
      → ((n : Node Db) (b : Block)
          → b.header.height ≡ add64 (tip_height n.blocks) 1
          → P n
          → P (append_block x s n b))
      → {n : Node Db} {ts : List Task} {m : Node Db} {us : List Task} → FineRun n ts m us
      → P n
      → P m
  FineRun_inv P elsewhere grows at_start h = h
  FineRun_inv P elsewhere grows (steps r st) h =
      Run_inv x s P elsewhere grows (next here st) (FineRun_inv P elsewhere grows r h)
  FineRun_inv P elsewhere grows (asks_faucet address r) h = FineRun_inv P elsewhere grows r h
  FineRun_inv P elsewhere grows (asks_tx req r) h = FineRun_inv P elsewhere grows r h
  FineRun_inv P elsewhere grows (advances {m} {us} i now stamp r) h =
      elsewhere m _ (turn-Keeps i now stamp m us) (FineRun_inv P elsewhere grows r h)

  -- Through every run of a consistent node - messages from peers, in any order and with any
  -- contents, rounds of block production, and requests to the RPC server whose sections come between
  -- one another and between all of these - the heights of the chain follow one another from 0, as
  -- u64, and the world state is what executing the blocks of the chain from an empty state gives,
  -- but for the faucet's cooldowns.
  pub FineRun-IsConsistent :
      {n m : Node Db} {ts us : List Task}
      → FineRun n ts m us
      → IsConsistent x s n
      → IsConsistent x s m
  FineRun-IsConsistent r =
      FineRun_inv (IsConsistent x s) (Keeps-IsConsistent x s) (append_block-IsConsistent x s) r
