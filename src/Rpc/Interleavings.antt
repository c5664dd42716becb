-- ===== src/Rpc/Interleavings.antt =====
-- Requests to the server of src/rpc/mod.rs whose sections come between one another.
use vela_network.Common.{
  ℕ, zero, suc, ◌+◌, ◌≡◌, refl, ap, ◌∙◌, List, [], ◌∷◌, push, Text, arith, ite, Bool-cases, inl,
  inr,
}
use vela_network.Common.Dict.{text_discrete}
use vela_network.Types.{Crates, Transaction, tx_hash, hash_to_hex}
use vela_network.State.{mark_faucet}
use vela_network.Storage.{Sled}
use vela_network.Node.{Node, broadcast, send}
use vela_network.Rpc.{ok, err, is_pooled, check_faucet}
use vela_network.Rpc.Requests.{Outcome-cases}
use vela_network.Rpc.Sections.{
  Task, faucet_asked, faucet_allowed, faucet_made, tx_asked, tx_checked, admitted, pooled, answered,
  check_request, advance,
}

-- One if the texts are equal.
abbrev one_if : Text → Text → ℕ
one_if a b = ite (text_discrete a b) 1 0

module _ {Db Val : Type 0} (x : Crates) (s : Sled Db Val) where
  abbrev pub hash_text : Transaction → Text
  hash_text tx = hash_to_hex x (tx_hash x tx)

  -- The next section of the task at a place of the list, at a time.
  abbrev pub turn : ℕ → ℕ → ℕ → Node Db → List Task → Node Db × List Task
  turn i now stamp n [] = (n, [])
  turn zero now stamp n (t ∷ ts) = let (n', t') = advance x s now stamp n t in (n', t' ∷ ts)
  turn (suc i) now stamp n (t ∷ ts) = let (n', ts') = turn i now stamp n ts in (n', t ∷ ts')

  -- Turns one after the other, each of a place and of its times.
  abbrev pub interleave : List (ℕ × ℕ × ℕ) → Node Db × List Task → Node Db × List Task
  interleave [] p = p
  interleave ((i, now, stamp) ∷ turns) (n, ts) = interleave turns (turn i now stamp n ts)

  -- How often a hash stands in a pool.
  abbrev pub occurrences : Text → List Transaction → ℕ
  occurrences h [] = 0
  occurrences h (tx ∷ txs) = one_if (hash_text tx) h + occurrences h txs

  -- Whether a task has put a transaction with that hash into the pool, and whether it has been
  -- answered with one.
  abbrev pub pools : Text → Task → ℕ
  pools h (faucet_asked a) = 0
  pools h (faucet_allowed a to) = 0
  pools h (faucet_made a tx) = 0
  pools h (tx_asked req) = 0
  pools h (tx_checked tx) = 0
  pools h (admitted tx) = 0
  pools h (pooled tx) = one_if (hash_text tx) h
  pools h (answered (ok k)) = one_if k h
  pools h (answered (err e)) = 0

  abbrev pub pools_all : Text → List Task → ℕ
  pools_all h [] = 0
  pools_all h (t ∷ ts) = pools h t + pools_all h ts

  occurrences-push :
      (h : Text) (txs : List Transaction) (tx : Transaction)
      → occurrences h (push txs tx) ≡ occurrences h txs + one_if (hash_text tx) h
  occurrences-push h [] tx = omega arith
  occurrences-push h (t ∷ txs) tx = omega (arith, occurrences-push h txs tx)

  -- What sections leave alone, and how the pool follows the tasks.
  pub record Serves (n n' : Node Db) (before after : Text → ℕ) : Type 0 where
    pub blocks : n'.blocks ≡ n.blocks
    pub db : n'.db ≡ n.db
    pub accounts : n'.world_state.accounts ≡ n.world_state.accounts
    pub hotstuff : n'.hotstuff ≡ n.hotstuff
    pub pool : (h : Text) → occurrences h n'.mempool + before h ≡ occurrences h n.mempool + after h

  -- A section that leaves the chain, the database, the accounts, the engine and the pool alone.
  quiet :
      (n n' : Node Db) (k : Text → ℕ)
      → n'.blocks ≡ n.blocks
      → n'.db ≡ n.db
      → n'.world_state.accounts ≡ n.world_state.accounts
      → n'.hotstuff ≡ n.hotstuff
      → n'.mempool ≡ n.mempool
      → Serves n n' k k
  quiet n n' k b d a e m = record {
    blocks = b;
    db = d;
    accounts = a;
    hotstuff = e;
    pool = λ h. ap (λ l. occurrences h l + k h) m;
  }

  idle : (n : Node Db) (k : Text → ℕ) → Serves n n k k
  idle n k = quiet n n k refl refl refl refl refl

  advance-Serves :
      (now stamp : ℕ) (n : Node Db) (t : Task)
      → Serves n
          (advance x s now stamp n t).0
          (λ h. pools h t)
          (λ h. pools h (advance x s now stamp n t).1)
  unfolding advance mark_faucet broadcast send
  advance-Serves now stamp n (faucet_asked a) =
      elim (Outcome-cases (check_faucet x s now n.world_state a)) [
        | inl (to, e) ↦ rw (e, advance) (idle n _)
        | inr (r, e) ↦ rw (e, advance) (idle n _)
      ]
  advance-Serves now stamp n (faucet_allowed a to) = idle n _
  advance-Serves now stamp n (faucet_made a tx) = quiet n _ _ refl refl refl refl refl
  advance-Serves now stamp n (tx_asked req) =
      elim (Outcome-cases (check_request x s stamp n.world_state req)) [
        | inl (tx, e) ↦ rw (e, advance) (idle n _)
        | inr (r, e) ↦ rw (e, advance) (idle n _)
      ]
  advance-Serves now stamp n (tx_checked tx) =
      elim (Bool-cases (is_pooled x s (hash_text tx) n.mempool)) [
        | inl e ↦ rw (e, advance) (idle n _)
        | inr e ↦ rw (e, advance) (idle n _)
      ]
  advance-Serves now stamp n (admitted tx) = record {
    blocks = refl;
    db = refl;
    accounts = refl;
    hotstuff = refl;
    pool = λ h. omega (arith, occurrences-push h n.mempool tx);
  }
  advance-Serves now stamp n (pooled tx) = quiet n _ _ refl refl refl refl refl
  advance-Serves now stamp n (answered a) = idle n _

  turn-Serves :
      (i now stamp : ℕ) (n : Node Db) (ts : List Task)
      → Serves n
          (turn i now stamp n ts).0
          (λ h. pools_all h ts)
          (λ h. pools_all h (turn i now stamp n ts).1)
  turn-Serves i now stamp n [] = idle n _
  turn-Serves zero now stamp n (t ∷ ts) =
      let a = advance-Serves now stamp n t in
      record {
        blocks = a.blocks;
        db = a.db;
        accounts = a.accounts;
        hotstuff = a.hotstuff;
        pool = λ h. omega (arith, a.pool h);
      }
  turn-Serves (suc i) now stamp n (t ∷ ts) =
      let a = turn-Serves i now stamp n ts in
      record {
        blocks = a.blocks;
        db = a.db;
        accounts = a.accounts;
        hotstuff = a.hotstuff;
        pool = λ h. omega (arith, a.pool h);
      }

  -- However the sections of any requests come between one another, at any times: the chain, the
  -- database, the accounts and the engine stay, and the pool gains, for each hash, exactly as many
  -- transactions as there are requests that have put one into it or were answered with it since.
  pub interleave-Serves :
      (turns : List (ℕ × ℕ × ℕ)) (n : Node Db) (ts : List Task)
      → Serves n
          (interleave turns (n, ts)).0
          (λ h. pools_all h ts)
          (λ h. pools_all h (interleave turns (n, ts)).1)
  interleave-Serves [] n ts = idle n _
  interleave-Serves ((i, now, stamp) ∷ turns) n ts =
      let a = turn-Serves i now stamp n ts in
      let (n', ts') = turn i now stamp n ts in
      let b = interleave-Serves turns n' ts' in
      record {
        blocks = b.blocks ∙ a.blocks;
        db = b.db ∙ a.db;
        accounts = b.accounts ∙ a.accounts;
        hotstuff = b.hotstuff ∙ a.hotstuff;
        pool = λ h. omega (arith, a.pool h, b.pool h);
      }
