-- ===== src/Pads/Linking.antt =====
-- Linking, getting a peer and both halves of unlinking keep the state sound.
use zstreamer.Common.{
  ℕ, ◌+◌, ◌<◌, ◌≡◌, refl, sym, ap, ◌∙◌, true, false, not, Bool-cases, inl, inr, Option, none, some,
  List, [], ◌∷◌, ◌++◌, if_intro, subst, ◌||◌, count, arith,
}
use zstreamer.Types.{ZstResult}
use zstreamer.Pads.{
  Pads, is_src, is_ok, is_some, is_peer, set_at, ref_pad, link, link_pair, clear_peer, get_peer,
  unlink_look, unlink_pair, unlink_unrefs,
}
use zstreamer.Pads.System.{Call, World, callers, looked_at, IsSound}

not_some : (o : Option ℕ) → is_some o ≡ false → o ≡ none
unfolding is_some
not_some none e = refl
not_some (some a) e = absurd (ground arith)

link_pair-IsSound :
    (w : World) (a b : ℕ)
    → is_src (w.pads.direction a) ≡ true
    → is_src (w.pads.direction b) ≡ false
    → w.pads.peer a ≡ none
    → w.pads.peer b ≡ none
    → 0 < w.held a
    → 0 < w.held b
    → IsSound w
    → IsSound (record w { pads = link_pair w.pads a b })
unfolding link_pair ref_pad set_at is_some
link_pair-IsSound w a b da db na nb ha hb s = record {
  counted = λ i. ground (arith, apart, s.counted i);
  allocated = λ i. ground (arith, apart, s.allocated i, s.counted a, s.counted b);
  mutual_peers = λ i j e. ground (arith, apart, e, s.mutual_peers i j);
  opposite = λ i j e o. ground (arith, apart, e, o, s.opposite i j);
  flagged = λ i. ground (arith, s.flagged i);
  kept = s.kept;
}
  where
    apart : a ≡ b → ⊥
    apart e = ground (arith, ap (λ k. is_src (w.pads.direction k)) e)

pub links-IsSound :
    (w : World) (a b : ℕ) (negotiated : ZstResult)
    → 0 < w.held a
    → 0 < w.held b
    → IsSound w
    → IsSound (record w { pads = (link w.pads a b negotiated).0 })
unfolding link
links-IsSound w a b negotiated ha hb s =
    if_intro P (not (is_src (w.pads.direction a))) (λ _. s)
      λ da.
        if_intro P (is_src (w.pads.direction b)) (λ _. s)
          λ db.
            if_intro P (not (is_ok negotiated)) (λ _. s)
              λ _.
                if_intro P (is_some (w.pads.peer a) || is_some (w.pads.peer b)) (λ _. s)
                  λ n.
                    link_pair-IsSound w a b (ground arith) db
                      (not_some (w.pads.peer a) (ground arith))
                      (not_some (w.pads.peer b) (ground arith)) ha hb s
  where
    P : Pads × ZstResult → Type 0
    P r = IsSound (record w { pads = r.0 })

look_ref-IsSound :
    (w : World) (a b : ℕ)
    → 0 < w.held a
    → w.pads.peer a ≡ some b
    → IsSound w
    → IsSound (record w { pads = ref_pad w.pads b; calls = record { pad = a; peer = b } ∷ w.calls })
unfolding ref_pad set_at
look_ref-IsSound w a b h e s = record {
  counted = λ i. ground (arith, s.counted i);
  allocated = λ i. ground (arith, s.allocated i, s.counted b, s.mutual_peers a b e);
  mutual_peers = s.mutual_peers;
  opposite = s.opposite;
  flagged = s.flagged;
  kept = λ i k. ground (arith, k, s.kept i);
}

got_lem :
    (p : Pads) (a b : ℕ) (q : Pads)
    → get_peer p a ≡ some (b, q)
    → (p.peer a ≡ some b) × (q ≡ ref_pad p b)
unfolding get_peer
got_lem p a b q e = ground (arith, e)

pub looks-IsSound :
    (w : World) (a b : ℕ) (p : Pads)
    → 0 < w.held a
    → unlink_look w.pads a ≡ some (b, p)
    → IsSound w
    → IsSound (record w { pads = p; calls = record { pad = a; peer = b } ∷ w.calls })
unfolding unlink_look
looks-IsSound w a b p h e s =
    let (there, new) = got_lem w.pads a b p e in
    subst (λ q. IsSound (record w { pads = q; calls = record { pad = a; peer = b } ∷ w.calls }))
      (sym new) (look_ref-IsSound w a b h there s)

peer_ref-IsSound :
    (w : World) (a b : ℕ)
    → w.pads.peer a ≡ some b
    → IsSound w
    → IsSound (record w { pads = ref_pad w.pads b; held = set_at w.held b (w.held b + 1) })
unfolding ref_pad set_at
peer_ref-IsSound w a b e s = record {
  counted = λ i. ground (arith, s.counted i);
  allocated = λ i. ground (arith, s.allocated i, s.counted b, s.mutual_peers a b e);
  mutual_peers = s.mutual_peers;
  opposite = s.opposite;
  flagged = s.flagged;
  kept = λ i k. ground (arith, s.kept i k);
}

pub gets_peer-IsSound :
    (w : World) (a b : ℕ) (p : Pads)
    → get_peer w.pads a ≡ some (b, p)
    → IsSound w
    → IsSound (record w { pads = p; held = set_at w.held b (w.held b + 1) })
gets_peer-IsSound w a b p e s =
    let (there, new) = got_lem w.pads a b p e in
    subst (λ q. IsSound (record w { pads = q; held = set_at w.held b (w.held b + 1) })) (sym new)
      (peer_ref-IsSound w a b there s)

looked-remove :
    (c : Call) (cs ds : List Call) (i : ℕ)
    → count i (looked_at (cs ++ c ∷ ds)) ≡ count i (c.peer ∷ looked_at (cs ++ ds))
looked-remove c [] ds i = refl
looked-remove c (d ∷ cs) ds i = ground (arith, looked-remove c cs ds i)

callers-remove :
    (c : Call) (cs ds : List Call) (i : ℕ)
    → count i (callers (cs ++ c ∷ ds)) ≡ count i (c.pad ∷ callers (cs ++ ds))
callers-remove c [] ds i = refl
callers-remove c (d ∷ cs) ds i = ground (arith, callers-remove c cs ds i)

is_peer_lem : (o : Option ℕ) (b : ℕ) → is_peer o b ≡ true → o ≡ some b
unfolding is_peer
is_peer_lem none b e = absurd (ground arith)
is_peer_lem (some a) b e = ground arith

is_peer_self : (b : ℕ) → is_peer (some b) b ≡ true
unfolding is_peer
is_peer_self b = ground arith

-- The calls that go on, with one look fewer.
module _ (w : World) (c : Call) (cs ds : List Call) (e : w.calls ≡ cs ++ c ∷ ds) where
  looked : (i : ℕ) → count i (looked_at w.calls) ≡ count i (c.peer ∷ looked_at (cs ++ ds))
  looked i = ap (λ l. count i (looked_at l)) e ∙ looked-remove c cs ds i

  called : (i : ℕ) → count i (callers w.calls) ≡ count i (c.pad ∷ callers (cs ++ ds))
  called i = ap (λ l. count i (callers l)) e ∙ callers-remove c cs ds i

  unlinked-IsSound :
      is_peer (w.pads.peer c.pad) c.peer ≡ true
      → IsSound w
      → IsSound (record w {
        pads = clear_peer (clear_peer w.pads c.pad) c.peer;
        calls = cs ++ ds;
        unrefs = c.peer ∷ c.pad ∷ c.peer ∷ w.unrefs;
      })
  unfolding clear_peer set_at is_some
  unlinked-IsSound t s =
      let there = is_peer_lem (w.pads.peer c.pad) c.peer t in
      let back = s.mutual_peers c.pad c.peer there in
      let apart : c.pad ≡ c.peer → ⊥ =
        λ q. s.opposite c.pad c.peer there (ap (λ k. is_src (w.pads.direction k)) q) in
      record {
        counted = λ i. ground (arith, s.counted i, looked i, there, back, apart);
        allocated = s.allocated;
        mutual_peers =
            λ i j p. ground (arith, p, s.mutual_peers i j, there, back, s.mutual_peers j i);
        opposite = λ i j p o. ground (arith, p, o, s.opposite i j);
        flagged = λ i. ground (arith, s.flagged i);
        kept = λ i k. ground (arith, k, s.kept i, called i);
      }

  left-IsSound : IsSound w → IsSound (record w { calls = cs ++ ds; unrefs = c.peer ∷ w.unrefs })
  left-IsSound s = record {
    counted = λ i. ground (arith, s.counted i, looked i);
    allocated = s.allocated;
    mutual_peers = s.mutual_peers;
    opposite = s.opposite;
    flagged = s.flagged;
    kept = λ i k. ground (arith, k, s.kept i, called i);
  }

  pub unlinks-IsSound :
      IsSound w
      → IsSound (record w {
        pads = (unlink_pair w.pads c.pad c.peer).0;
        calls = cs ++ ds;
        unrefs = unlink_unrefs (unlink_pair w.pads c.pad c.peer).1 c.pad c.peer ++ w.unrefs;
      })
  unfolding unlink_pair unlink_unrefs
  unlinks-IsSound s = elim (Bool-cases (is_peer (w.pads.peer c.pad) c.peer)) [
    | inl t ↦
        let back = s.mutual_peers c.pad c.peer (is_peer_lem (w.pads.peer c.pad) c.peer t) in
        rw t (rw back (rw (is_peer_self c.pad) (unlinked-IsSound t s)))
    | inr f ↦ rw f (left-IsSound s)
  ]
