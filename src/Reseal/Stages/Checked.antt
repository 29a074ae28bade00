-- ===== src/Reseal/Stages/Checked.antt =====
-- The order of the stages of cmd/reseal.go, and the check before the last.
use txcartool.Common.{
  bind-ok, ℕ, ◌≤◌, ◌<◌, subst, ◌≡◌, refl, sym, ap, Bool, true, false, List, [], ◌∷◌, Bytes, Result,
  ok, err, panic, Exec, codes, bytes_eq, bytes_eq_iff, if◌then◌else◌, continue, ◌>>=◌, lift, pure,
  raise, All, All-append, arith, Bool-cases, inl, inr,
}
use txcartool.Reseal.{SectorSealInfo, SectorMeta}
use txcartool.Reseal.Stages.{
  PathType, Call, World, Trace, call, deferring, add_piece, precommit1, precommit2, move,
  remove_file, is_moved, move_all, finalize, sector_meta, unless, different_cid, redo_sector,
}

-- the last stage that a seal type asks for
abbrev pub last_stage : Bytes → ℕ
last_stage seal_type =
    if bytes_eq seal_type (codes "AP")
    then 1
    else (if bytes_eq seal_type (codes "P1")
        then 2
        else (if bytes_eq seal_type (codes "P2") then 3 else 4))

within_last :
    (ap p1 p2 : Bool)
    → (1 ≤ (if ap then 1 else (if p1 then 2 else (if p2 then 3 else 4))))
      × ((ap ≡ false → 2 ≤ (if ap then 1 else (if p1 then 2 else (if p2 then 3 else 4))))
          × ((ap ≡ false
                → p1 ≡ false
                → 3 ≤ (if ap then 1 else (if p1 then 2 else (if p2 then 3 else 4))))
              × (ap ≡ false
                  → p1 ≡ false
                  → p2 ≡ false
                  → 4 ≤ (if ap then 1 else (if p1 then 2 else (if p2 then 3 else 4))))))
within_last ap p1 p2 =
    (ground arith, (λ a. ground arith, (λ a b. ground arith, λ a b c. ground arith)))

module _ {Uuid : Type 0} where
  -- the stage that makes a call: AP, P1, P2 and FIN
  abbrev pub stage : Call Uuid → ℕ
  stage (Call.create_car_file key) = 1
  stage Call.create_tx_unsealed = 1
  stage (Call.acquire_sector sid) = 1
  stage Call.rename_unsealed = 1
  stage (Call.seal_pre_commit1 sid ticket pieces) = 2
  stage (Call.seal_pre_commit2 sid p1_out) = 3
  stage (Call.finalize_sector sid) = 4
  stage (Call.mkdir_all path) = 4
  stage (Call.run_mv from' dir) = 4
  stage (Call.run_rm path) = 4

  record Keeps {A : Type 0} (P : Call Uuid → Type 0) (m : Exec (Trace Uuid) A) : Type 0 where
    at : (s : Trace Uuid) → All P s → All P (m s).1

  module _ {P : Call Uuid → Type 0} {A : Type 0} where
    -- What follows may use that the first part has returned its value.
    bind-Keeps :
        {B : Type 0} (m : Exec (Trace Uuid) A) (f : A → Exec (Trace Uuid) B)
        → Keeps P m
        → ((a : A) → (s : Trace Uuid) × ((m s).0 ≡ ok a) → Keeps P (f a))
        → Keeps P (m >>= f)
    bind-Keeps {B} m f km kf = record { at = λ s h. go s h (m s).0 refl }
      where
        go :
            (s : Trace Uuid)
            → All P s
            → (r : Result A) → (m s).0 ≡ r
            → All P (continue r f (m s).1).1
        go s h (ok a) e = (kf a (s, e)).at (m s).1 (km.at s h)
        go s h (err e') e = km.at s h
        go s h panic e = km.at s h

    call-Keeps : (c : Call Uuid) (r : Result A) → P c → Keeps P (call c r)
    call-Keeps c r p = record { at = λ s h. All-append P s (c ∷ []) h (p, tt) }

    lift-Keeps : (r : Result A) → Keeps P (lift r)
    lift-Keeps r = record { at = λ s h. h }

    deferring-Keeps : (b : Bool) (m : Exec (Trace Uuid) A) → Keeps P m → Keeps P (deferring b m)
    deferring-Keeps true m k = record { at = k.at }
    deferring-Keeps false m k = record { at = k.at }

    if-Keeps :
        (b : Bool) (m n : Exec (Trace Uuid) A)
        → Keeps P m
        → Keeps P n
        → Keeps P (if b then m else n)
    if-Keeps true m n km kn = km
    if-Keeps false m n km kn = kn

  unless-Keeps :
      {P : Call Uuid → Type 0} (b : Bool) (m : Exec (Trace Uuid) (Unit {0}))
      → (b ≡ false → Keeps P m)
      → Keeps P (unless b m)
  unless-Keeps true m k = record { at = λ s h. h }
  unless-Keeps false m k = k refl

  ruleset keeps_rules = (lift-Keeps, call-Keeps, deferring-Keeps, if-Keeps, bind-Keeps)

  module _ {P : Call Uuid → Type 0} (w : World Uuid) where
    add_piece-Keeps :
        (info : SectorSealInfo Uuid) (meta : SectorMeta)
        → ((c : Call Uuid) → stage c ≡ 1 → P c)
        → Keeps P (add_piece w info meta)
    unfolding add_piece
    add_piece-Keeps info meta p = search (keeps_rules) depth 12

    precommit2-Keeps :
        (sid : ℕ) (out : Bytes) (meta : SectorMeta)
        → ((c : Call Uuid) → stage c ≡ 3 → P c)
        → Keeps P (precommit2 w sid out meta)
    unfolding precommit2
    precommit2-Keeps sid out meta p = search keeps_rules depth 12

    module _ (p : (c : Call Uuid) → stage c ≡ 4 → P c) where
      move-Keeps : (from' to' : Bytes) → Keeps P (move w from' to')
      unfolding move
      move-Keeps from' to' = search keeps_rules depth 12

      move_all-Keeps : (sid : ℕ) (pts : List PathType) → Keeps P (move_all w sid pts)
      unfolding move_all
      move_all-Keeps sid [] = search keeps_rules
      move_all-Keeps sid (pt ∷ pts) =
          if-Keeps (is_moved pt) _ _
            (bind-Keeps (move w (w.seal_path pt sid) (w.storage_path pt sid))
              (λ u. move_all w sid pts) (move-Keeps _ _) (λ u e. move_all-Keeps sid pts))
            (move_all-Keeps sid pts)

      finalize-Keeps : (sid : ℕ) → Keeps P (finalize w sid)
      unfolding finalize remove_file
      finalize-Keeps sid = search (keeps_rules, move_all-Keeps) depth 12

  -- The sealed CID that is computed is that of the database.
  pub record SealedAsRecorded (w : World Uuid) (sid : ℕ) : Type 0 where
    pub meta : SectorMeta
    pub out : Bytes
    pub sealed : Bytes
    pub orig_sealed : Bytes
    pub has_row : sector_meta w sid ≡ ok meta
    pub has_sealed : w.seal2 sid out ≡ ok sealed
    pub has_orig : w.decode meta.orig_sealed_cid ≡ ok orig_sealed
    pub same : w.cid_text sealed ≡ w.cid_text orig_sealed

  precommit2-ok :
      (w : World Uuid) (sid : ℕ) (out : Bytes) (meta : SectorMeta) (s : Trace Uuid) (u : Unit {0})
      → sector_meta w sid ≡ ok meta
      → (precommit2 w sid out meta s).0 ≡ ok u
      → SealedAsRecorded w sid
  unfolding precommit2
  precommit2-ok w sid out meta s u row e =
      let (orig, is_orig, e') = bind-ok (lift (w.decode meta.orig_sealed_cid)) seal s u e in
      let (sealed, is_sealed, e'') =
        bind-ok (call (Call.seal_pre_commit2 sid out) (w.seal2 sid out)) (compare orig) s u e' in
      record {
        meta = meta;
        out = out;
        sealed = sealed;
        orig_sealed = orig;
        has_row = row;
        has_sealed = is_sealed;
        has_orig = is_orig;
        same = same orig sealed _ e'';
      }
    where
      compare : Bytes → Bytes → Exec (Trace Uuid) (Unit {0})
      compare orig sealed =
          if bytes_eq (w.cid_text sealed) (w.cid_text orig) then pure tt else raise different_cid

      seal : Bytes → Exec (Trace Uuid) (Unit {0})
      seal orig = call (Call.seal_pre_commit2 sid out) (w.seal2 sid out) >>= compare orig

      same :
          (orig sealed : Bytes) (t : Trace Uuid)
          → (compare orig sealed t).0 ≡ ok u
          → w.cid_text sealed ≡ w.cid_text orig
      same orig sealed t e' = elim (Bool-cases (bytes_eq (w.cid_text sealed) (w.cid_text orig))) [
        | inl eq ↦ (bytes_eq_iff _ _).0 eq
        | inr ne ↦ ground arith
      ]

  -- A call of a stage that is asked for; and one of the last stage only after the check.
  pub record IsAllowed (w : World Uuid) (info : SectorSealInfo Uuid) (c : Call Uuid) : Type 0 where
    pub asked : stage c ≤ last_stage info.seal_type
    pub checked : stage c ≡ 4 → SealedAsRecorded w info.sid

  -- A worker makes no call of a stage behind the one its seal type names, and it finalizes, moves
  -- or removes the files of a sector only if the sealed CID that was computed is that of the
  -- database.
  pub redo_sector-IsAllowed :
      (w : World Uuid) (info : SectorSealInfo Uuid)
      → All (IsAllowed w info) (redo_sector w info []).1
  unfolding redo_sector precommit1
  redo_sector-IsAllowed w info = whole.at [] tt
    where
      ap : Bool
      ap = bytes_eq info.seal_type (codes "AP")

      p1 : Bool
      p1 = bytes_eq info.seal_type (codes "P1")

      p2 : Bool
      p2 = bytes_eq info.seal_type (codes "P2")

      early :
          (n : ℕ) (c : Call Uuid)
          → n < 4
          → n ≤ last_stage info.seal_type
          → stage c ≡ n
          → IsAllowed w info c
      early n c h le e = record { asked = omega arith; checked = λ e4. absurd (omega arith) }

      whole : Keeps (IsAllowed w info) (redo_sector w info)
      whole = bind-Keeps (lift (sector_meta w info.sid)) _ (lift-Keeps _) λ meta row.
          bind-Keeps (add_piece w info meta) _
            (add_piece-Keeps w info meta λ c. early 1 c (omega arith) (within_last ap p1 p2).0)
            λ pi _. unless-Keeps ap _ λ not_ap.
              bind-Keeps (precommit1 w info.sid pi meta) _
                (call-Keeps _ _ (early 2 _ (omega arith) ((within_last ap p1 p2).1.0 not_ap) refl))
                λ p1_out _. unless-Keeps p1 _ λ not_p1.
                  bind-Keeps (precommit2 w info.sid p1_out meta) _
                    (precommit2-Keeps w info.sid p1_out meta
                      λ c. early 3 c (omega arith) ((within_last ap p1 p2).1.1.0 not_ap not_p1))
                    λ u done. unless-Keeps p2 _ λ not_p2.
                      finalize-Keeps w
                        (λ c e. record {
                          asked =
                              subst (λ n. n ≤ last_stage info.seal_type) (sym e)
                                ((within_last ap p1 p2).1.1.1 not_ap not_p1 not_p2);
                          checked =
                              λ e4. precommit2-ok w info.sid p1_out meta done.0 u row.1 done.1;
                        })
                        info.sid
