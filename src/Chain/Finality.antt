-- ===== src/Chain/Finality.antt =====
-- What a read of crates/keyex/src/chain.rs guarantees when it succeeds.
use kaskad_nuntius.Prelude.{
  ℕ, ◌-◌, ◌≤◌, min, ◌≡◌, not, ◌||◌, none, some, ok, Act, ◌>>=◌, >>=-eq-ok, pure, ◌==◌, eq_iff,
  nat_eq, list_eq, arith,
}
use kaskad_nuntius.Policy.{Bytes}
use kaskad_nuntius.Chain.Wire.{Wire, Transport}
use kaskad_nuntius.Chain.Abi.{encode_call}
use kaskad_nuntius.Chain.Reads.{
  ChainError, mismatch, BlockRef, FinalityPolicy, finalized_with_depth, canonical_hash, fail_if,
  eth_block_number, read_block, finalized_block, sel_burned, eth_call_word, read_block_hash,
  burned_finalized,
}

module _ (x : Wire) (t : Transport x) where
  open x use {World}

  -- A block that is asked for by number has that number.
  pub read_block_number :
      (n : ℕ) (w w' : World) (b : BlockRef) → read_block x t (some n) w ≡ (ok b, w') → b.number ≡ n
  unfolding read_block
  read_block_number n w w' b h = ground arith

  -- If a read under `FinalizedWithDepth(depth)` succeeds, then it has read a finalized block and the head,
  -- the chain is at least `depth` blocks long, and the block has the smaller of the finalized number and
  -- the head's number less `depth`.
  pub finalized_block_depth :
      (depth : ℕ) (w w' : World) (b : BlockRef)
      → finalized_block x t (finalized_with_depth depth) w ≡ (ok b, w')
      → (fin : BlockRef) × (w₁ : World) × (head : ℕ) × (w₂ : World) × (read_block x t none w
          ≡ (ok fin, w₁))
        × (eth_block_number x t w₁ ≡ (ok head, w₂))
        × (depth ≤ head)
        × (b.number ≡ min fin.number (head - depth))
  unfolding finalized_block
  finalized_block_depth depth w w' b h =
      let (fin, w₁, p, h₁) = >>=-eq-ok (read_block x t none) _ w h in
      let (head, w₂, q, h₂) = >>=-eq-ok (eth_block_number x t) _ w₁ h₁ in
      (
        fin,
        w₁,
        head,
        w₂,
        p,
        q,
        ground arith,
        ground (arith, read_block_number (head - depth) w₂ w' b),
      )

  abbrev call_of : Bytes → Bytes → Bytes → Act World ChainError Bytes
  call_of exit recipient hash =
      eth_call_word x t exit (encode_call sel_burned recipient) (canonical_hash hash)

  agree_end :
      (hash hash2 v1 v2 : Bytes) (n total height : ℕ) (w w' : World)
      → ◌>>=◌ {B = ℕ × ℕ}
          (fail_if x t (not (hash == hash2) || not (v1 == v2)) mismatch)
          (λ _. pure (x.u256_from_be v1, n))
          w
        ≡ (ok (total, height), w')
      → (hash2 ≡ hash) × (v2 ≡ v1) × (total ≡ x.u256_from_be v1) × (height ≡ n) × (w ≡ w')
  agree_end hash hash2 v1 v2 n total height w w' h = ground (arith, eq_iff hash hash2, eq_iff v1 v2)

  -- If the burned total is read, then one block was pinned; two calls of `burned` at that block's hash,
  -- with a fresh read of the header between them, gave the same word, and the header still had that
  -- hash; the total is that word and the height is the block's.
  pub burned_finalized_agrees :
      (exit recipient : Bytes) (finality : FinalityPolicy) (w w' : World) (total height : ℕ)
      → burned_finalized x t exit recipient finality w ≡ (ok (total, height), w')
      → let read = λ (hash : Bytes).
        eth_call_word x t exit (encode_call sel_burned recipient) (canonical_hash hash) in
        (block : BlockRef) × (word : Bytes) × (w₁ : World) × (w₂ : World) × (w₃ : World)
        × (finalized_block x t finality w ≡ (ok block, w₁))
        × (read block.hash w₁ ≡ (ok word, w₂))
        × (read_block_hash x t block.number w₂ ≡ (ok block.hash, w₃))
        × (read block.hash w₃ ≡ (ok word, w'))
        × (total ≡ x.u256_from_be word)
        × (height ≡ block.number)
  unfolding burned_finalized
  burned_finalized_agrees exit recipient finality w w' total height h =
      let (block, w₁, p, h₁) = >>=-eq-ok (finalized_block x t finality) _ w h in
      let (v1, w₂, q, h₂) = >>=-eq-ok (call_of exit recipient block.hash) _ w₁ h₁ in
      let (hash2, w₃, r, h₃) = >>=-eq-ok (read_block_hash x t block.number) _ w₂ h₂ in
      let (v2, w₄, s, h₄) = >>=-eq-ok (call_of exit recipient block.hash) _ w₃ h₃ in
      let (e, d, a, b, f) = agree_end block.hash hash2 v1 v2 block.number total height w₄ w' h₄ in
      (block, v1, w₁, w₂, w₃, p, q, cc, cc, a, b)
