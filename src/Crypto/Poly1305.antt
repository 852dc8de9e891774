-- ===== src/Crypto/Poly1305.antt =====
-- The one-time authenticator: 130-bit arithmetic on five limbs of 26 bits, in 32- and 64-bit words.
use nova_net.Prelude.{
  ℕ, zero, suc, ◌+◌, ◌-◌, ◌*◌, ◌/◌, ◌%◌, ◌^◌, ◌<◌, List, [], ◌∷◌, ◌++◌, take, drop, set, replicate,
  bit_and, bit_or, Bool, true, false, ltb, ◌==◌, if◌then◌else◌, u32, u64, not32, ◌<<<◌, ◌>>>◌,
}
pub mod Block
pub mod Absorb
pub mod Finish
pub mod Clamp
pub mod Tag
use nova_net.Wire.{Endian, store, load, nn_read_u32le, nn_write_u32le}

-- Five limbs; the sums of products before the carries are kept in five 64-bit words too.
pub record Limbs : Type 0 where
  pub l0 : ℕ
  pub l1 : ℕ
  pub l2 : ℕ
  pub l3 : ℕ
  pub l4 : ℕ

-- Four 32-bit words, the lowest first.
pub record Words : Type 0 where
  pub w0 : ℕ
  pub w1 : ℕ
  pub w2 : ℕ
  pub w3 : ℕ

pub record Poly1305State : Type 0 where
  pub r : Limbs
  pub h : Limbs
  pub pad : Words

abbrev pub limb_mask : ℕ
limb_mask = 0x3FFFFFF

-- The clamped key, the limbs of four words.
pub clamp_limbs : Words → Limbs
clamp_limbs t = record {
  l0 = bit_and t.w0 0x3FFFFFF;
  l1 = bit_and (bit_or (t.w0 >>> 26) (u32 (t.w1 <<< 6))) 0x3FFFF03;
  l2 = bit_and (bit_or (t.w1 >>> 20) (u32 (t.w2 <<< 12))) 0x3FFC0FF;
  l3 = bit_and (bit_or (t.w2 >>> 14) (u32 (t.w3 <<< 18))) 0x3F03FFF;
  l4 = bit_and (t.w3 >>> 8) 0x00FFFFF;
}

-- `h += msg`
pub add_block : Limbs → Words → ℕ → Limbs
add_block h t hibit = record {
  l0 = u32 (h.l0 + bit_and t.w0 limb_mask);
  l1 = u32 (h.l1 + bit_and (bit_or (t.w0 >>> 26) (u32 (t.w1 <<< 6))) limb_mask);
  l2 = u32 (h.l2 + bit_and (bit_or (t.w1 >>> 20) (u32 (t.w2 <<< 12))) limb_mask);
  l3 = u32 (h.l3 + bit_and (bit_or (t.w2 >>> 14) (u32 (t.w3 <<< 18))) limb_mask);
  l4 = u32 (h.l4 + bit_or (t.w3 >>> 8) hibit);
}

-- The five sums `d0` to `d4` of the product with `r`, folded modulo 2^130 - 5.
pub products : Limbs → Limbs → Limbs
products h r =
    let s1 = u64 (r.l1 * 5) in
    let s2 = u64 (r.l2 * 5) in
    let s3 = u64 (r.l3 * 5) in
    let s4 = u64 (r.l4 * 5) in
    record {
      l0 = u64 (h.l0 * r.l0 + h.l1 * s4 + h.l2 * s3 + h.l3 * s2 + h.l4 * s1);
      l1 = u64 (h.l0 * r.l1 + h.l1 * r.l0 + h.l2 * s4 + h.l3 * s3 + h.l4 * s2);
      l2 = u64 (h.l0 * r.l2 + h.l1 * r.l1 + h.l2 * r.l0 + h.l3 * s4 + h.l4 * s3);
      l3 = u64 (h.l0 * r.l3 + h.l1 * r.l2 + h.l2 * r.l1 + h.l3 * r.l0 + h.l4 * s4);
      l4 = u64 (h.l0 * r.l4 + h.l1 * r.l3 + h.l2 * r.l2 + h.l3 * r.l1 + h.l4 * r.l0);
    }

-- The carries from the sums to the limbs.
pub carry : Limbs → Limbs
carry d =
    let d1 = u64 (d.l1 + u32 (d.l0 >>> 26)) in
    let d2 = u64 (d.l2 + u32 (d1 >>> 26)) in
    let d3 = u64 (d.l3 + u32 (d2 >>> 26)) in
    let d4 = u64 (d.l4 + u32 (d3 >>> 26)) in
    let h0 = u32 (bit_and (u32 d.l0) limb_mask + u32 (u32 (d4 >>> 26) * 5)) in
    record {
      l0 = bit_and h0 limb_mask;
      l1 = u32 (bit_and (u32 d1) limb_mask + (h0 >>> 26));
      l2 = bit_and (u32 d2) limb_mask;
      l3 = bit_and (u32 d3) limb_mask;
      l4 = bit_and (u32 d4) limb_mask;
    }

-- The carry chain of `poly1305_finish`.
pub full_carry : Limbs → Limbs
full_carry h =
    let h2 = u32 (h.l2 + (h.l1 >>> 26)) in
    let h3 = u32 (h.l3 + (h2 >>> 26)) in
    let h4 = u32 (h.l4 + (h3 >>> 26)) in
    let h0 = u32 (h.l0 + u32 ((h4 >>> 26) * 5)) in
    record {
      l0 = bit_and h0 limb_mask;
      l1 = u32 (bit_and h.l1 limb_mask + (h0 >>> 26));
      l2 = bit_and h2 limb_mask;
      l3 = bit_and h3 limb_mask;
      l4 = bit_and h4 limb_mask;
    }

-- `h - p`: the limbs of `h + 5`, with the top one less 2^26 as a 32-bit word.
pub minus_p : Limbs → Limbs
minus_p h =
    let g0 = u32 (h.l0 + 5) in
    let g1 = u32 (h.l1 + (g0 >>> 26)) in
    let g2 = u32 (h.l2 + (g1 >>> 26)) in
    let g3 = u32 (h.l3 + (g2 >>> 26)) in
    record {
      l0 = bit_and g0 limb_mask;
      l1 = bit_and g1 limb_mask;
      l2 = bit_and g2 limb_mask;
      l3 = bit_and g3 limb_mask;
      l4 = u32 (h.l4 + (g3 >>> 26) + 2 ^ 32 - 2 ^ 26);
    }

-- A limb of `g` under the mask, or one of `h` under its complement.
pub select_limb : ℕ → ℕ → ℕ → ℕ
select_limb mask h g = bit_or (bit_and h (not32 mask)) (bit_and g mask)

pub select : Limbs → Limbs → Limbs
select h g =
    let mask = u32 ((g.l4 >>> 31) + 2 ^ 32 - 1) in
    record {
      l0 = select_limb mask h.l0 g.l0;
      l1 = select_limb mask h.l1 g.l1;
      l2 = select_limb mask h.l2 g.l2;
      l3 = select_limb mask h.l3 g.l3;
      l4 = select_limb mask h.l4 g.l4;
    }

-- From limbs to words.
pub to_words : Limbs → Words
to_words h =
    let acc0 = bit_or h.l0 (u64 (h.l1 <<< 26)) in
    let acc1 = bit_or (acc0 >>> 32) (u64 (h.l2 <<< 20)) in
    let acc2 = bit_or (acc1 >>> 32) (u64 (h.l3 <<< 14)) in
    let acc3 = bit_or (acc2 >>> 32) (u64 (h.l4 <<< 8)) in
    record { w0 = u32 acc0; w1 = u32 acc1; w2 = u32 acc2; w3 = u32 acc3 }

-- `h + pad` modulo 2^128.
pub add_pad : Words → Words → Words
add_pad w pad =
    let f0 = u64 (w.w0 + pad.w0) in
    let f1 = u64 ((f0 >>> 32) + u64 (w.w1 + pad.w1)) in
    let f2 = u64 ((f1 >>> 32) + u64 (w.w2 + pad.w2)) in
    let f3 = u64 ((f2 >>> 32) + u64 (w.w3 + pad.w3)) in
    record { w0 = u32 f0; w1 = u32 f1; w2 = u32 f2; w3 = u32 f3 }

-- The last block: the bytes that remain, a 1, and zeros.
pub last_block : List ℕ → ℕ → List ℕ
last_block bytes remaining = set (store (replicate 16 0) 0 (take remaining bytes)) remaining 1

pub finish_words : Poly1305State → Words
finish_words st = let h = full_carry st.h in add_pad (to_words (select h (minus_p h))) st.pad

module _ (host : Endian) where
  -- Four words of a buffer.
  pub read_words : List ℕ → ℕ → Words
  read_words buf off = record {
    w0 = nn_read_u32le host buf off;
    w1 = nn_read_u32le host buf (off + 4);
    w2 = nn_read_u32le host buf (off + 8);
    w3 = nn_read_u32le host buf (off + 12);
  }

  pub poly1305_init : List ℕ → Poly1305State
  poly1305_init key = record {
    r = clamp_limbs (read_words key 0);
    h = record { l0 = 0; l1 = 0; l2 = 0; l3 = 0; l4 = 0 };
    pad = read_words key 16;
  }

  -- One round of the loop of `poly1305_blocks`, and `rounds` of them.
  pub absorb : ℕ → Poly1305State → List ℕ → Poly1305State
  absorb hibit st block = record st {
    h = carry (products (add_block st.h (read_words block 0) hibit) st.r);
  }

  pub absorb_all : ℕ → ℕ → Poly1305State → List ℕ → Poly1305State
  absorb_all hibit zero st bytes = st
  absorb_all hibit (suc rounds) st bytes =
      absorb_all hibit rounds (absorb hibit st bytes) (drop 16 bytes)

  -- The loop takes 16 bytes a round while as many are left.
  pub poly1305_blocks : Poly1305State → List ℕ → ℕ → Bool → Poly1305State
  poly1305_blocks st bytes len final_block =
      absorb_all (if final_block then 0 else 1 <<< 24) (len / 16) st bytes

  -- Four words written to a buffer.
  pub write_words : List ℕ → Words → List ℕ
  write_words tag w =
      nn_write_u32le host
        (nn_write_u32le host (nn_write_u32le host (nn_write_u32le host tag 0 w.w0) 4 w.w1) 8 w.w2)
        12 w.w3

  -- `tag` is the buffer of 16 bytes that is written.
  pub poly1305_finish : Poly1305State → List ℕ → ℕ → List ℕ → List ℕ
  poly1305_finish st bytes remaining tag =
      let st' =
        if ltb 0 remaining then poly1305_blocks st (last_block bytes remaining) 16 true else st in
      write_words tag (finish_words st')
