-- ===== src/Engine/Commit/Done.antt =====
-- What the commit loops of src/engine.rs have done where they return.
use git_storage.Prelude.{◌≡◌, ◌⊎◌, inl, inr, Bool, true, false, Option, none, some, List, [], ◌∷◌}
use git_storage.Prelude.Text.{Text}
use git_storage.Map.{get, values}
use git_storage.Map.Order.{text_ord}
use git_storage.Backend.{Backend}
use git_storage.Backend.Laws.{Views}
use git_storage.Crypto.Primitives.{Primitives}
use git_storage.Manifest.{Manifest}
use git_storage.Engine.Txn.{delta, compact, SegRec, StoreState}
use git_storage.Engine.Serde.{Serde}
use git_storage.Engine.Config.{Engine}
use git_storage.Engine.Monad.{World}
use git_storage.Engine.Repoint.{IdSet, build_repoint, any_touches, has_segments}
use git_storage.Engine.Commit.{Loads, RivalsOnly, RivalsOnly-trans, Moment, Moment-since}
use git_storage.Engine.Commit.Landing.{Landed, Landed-since}

module _ (P : Primitives) (S : Serde) {B : Backend} (V : Views B) (engine : Engine) where
  -- The process moved no ref, and at some moment the tip of the log stood for a state with this under
  -- a name.
  pub record Saw (w v : World B) (name : Text) (value : Option Manifest) : Type 0 where
    pub tip : Option Text
    pub state : StoreState
    pub moment : Moment V w v tip
    pub loads : Loads P S V engine v.disks.index tip state
    pub holds : get name state.namespace ≡ value

  -- The process moved no ref, and at some moment the tip of the log stood for a state that names a
  -- volume nowhere.
  pub record Retired (w v : World B) (vid : Text) : Type 0 where
    pub tip : Option Text
    pub state : StoreState
    pub moment : Moment V w v tip
    pub loads : Loads P S V engine v.disks.index tip state
    pub no_file : any_touches vid (values state.namespace) ≡ false
    pub no_segment : has_segments vid state.seg_index ≡ false

  -- By whether a put says that it committed.
  abbrev pub PutDone : Manifest → List SegRec → World B → Bool → World B → Type 0
  PutDone m seals w true v =
      (old : StoreState) × Landed P S V engine w v (delta (some m) none seals) old
  PutDone m seals w false v = Saw w v m.name (some m)

  -- What a removal that returns did.
  abbrev pub RemoveDone : Text → World B → World B → Type 0
  RemoveDone name w v =
      ((old : StoreState) × Landed P S V engine w v (delta none (some name) []) old)
      ⊎ Saw w v name none

  -- By whether a compaction says that it committed: the change landed or had landed already, or the
  -- process moved no ref.
  abbrev pub CompactDone :
      Text → Text → Text → IdSet → List SegRec → World B → Bool → World B → Type 0
  CompactDone retired dest seg moved seals w true v =
      ((old : StoreState) × (repoint : List Manifest) × (build_repoint retired dest seg moved
            (values old.namespace)
          ≡ some repoint)
        × Landed P S V engine w v (compact (retired ∷ []) seals repoint) old)
      ⊎ Retired w v retired
  CompactDone retired dest seg moved seals w false v = RivalsOnly V w v

  pub Saw-since :
      {u w v : World B} {name : Text} {value : Option Manifest}
      → RivalsOnly V u w
      → Saw w v name value
      → Saw u v name value
  Saw-since on s = record {
    tip = s.tip;
    state = s.state;
    moment = Moment-since V on s.moment;
    loads = s.loads;
    holds = s.holds;
  }

  pub PutDone-since :
      (m : Manifest) (seals : List SegRec) (u w v : World B) (said : Bool)
      → RivalsOnly V u w
      → PutDone m seals w said v
      → PutDone m seals u said v
  PutDone-since m seals u w v true on (old, l) = (old, Landed-since P S V engine on l)
  PutDone-since m seals u w v false on s = Saw-since on s

  pub RemoveDone-since :
      (name : Text) (u w v : World B) → RivalsOnly V u w → RemoveDone name w v → RemoveDone name u v
  RemoveDone-since name u w v on (inl (old, l)) = inl (old, Landed-since P S V engine on l)
  RemoveDone-since name u w v on (inr s) = inr (Saw-since on s)

  pub CompactDone-since :
      (retired dest seg : Text) (moved : IdSet) (seals : List SegRec) (u w v : World B)
      (said : Bool)
      → RivalsOnly V u w
      → CompactDone retired dest seg moved seals w said v
      → CompactDone retired dest seg moved seals u said v
  CompactDone-since retired dest seg moved seals u w v true on (inl (old, repoint, built, l)) =
      inl (old, repoint, built, Landed-since P S V engine on l)
  CompactDone-since retired dest seg moved seals u w v true on (inr r) = inr (record {
    tip = r.tip;
    state = r.state;
    moment = Moment-since V on r.moment;
    loads = r.loads;
    no_file = r.no_file;
    no_segment = r.no_segment;
  })
  CompactDone-since retired dest seg moved seals u w v false on r = RivalsOnly-trans V on r
