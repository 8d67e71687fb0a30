-- ===== src/Daemon/Slot/Invariant.antt =====
-- What holds of the channel in every state that one caller and the receiver reach.
use mathlib.Core.Path.{subst}
use lanclip.Base.{◌≡◌, refl, sym, ap, true, false, Option, none, some, List, [], ◌∷◌}
use lanclip.Daemon.Slot.{
  Pc, idle, asks, offers, clears, places, Slot, Step, call, is_done, is_open, offer, full, clear,
  cleared, place, leave, take, close, other_puts, other_clears, Reach, start, later, history,
  kept_by,
}

-- A list with some of the elements left out.
pub data Subseq {ℓ} {A : Type ℓ} : List A → List A → Type ℓ where
  nothing : Subseq [] []
  skip : {x : A} {xs ys : List A} → Subseq xs ys → Subseq xs (x ∷ ys)
  keep : {x : A} {xs ys : List A} → Subseq xs ys → Subseq (x ∷ xs) (x ∷ ys)

abbrev newest {ℓ} : {A : Type ℓ} → List A → Option A
newest [] = none
newest (x ∷ xs) = some x

module _ {ℓ} {A : Type ℓ} where
  Subseq-tail : {x : A} {xs ys : List A} → Subseq (x ∷ xs) ys → Subseq xs ys
  Subseq-tail (skip p) = skip (Subseq-tail p)
  Subseq-tail (keep p) = skip p

  -- The list of calls, before the one in progress.
  abbrev pub Shape : Pc A → List A → List A → Type ℓ
  Shape idle asked rest = asked ≡ rest
  Shape (asks m) asked rest = asked ≡ m ∷ rest
  Shape (offers m) asked rest = asked ≡ m ∷ rest
  Shape (clears m) asked rest = asked ≡ m ∷ rest
  Shape (places m) asked rest = asked ≡ m ∷ rest

  abbrev pub IsFree : Pc A → Option A → Type ℓ
  IsFree (places m) o = o ≡ none
  IsFree _ _ = Unit

  abbrev pub IsLatest : Pc A → List A → List A → Type ℓ
  IsLatest idle kept asked = newest kept ≡ newest asked
  IsLatest _ _ _ = Unit

  pub record Inv (s : Slot A) : Type ℓ where
    pub rest : List A
    pub shape : Shape s.pc s.asked rest
    pub order : Subseq (history s) rest
    pub free : IsFree s.pc s.slot
    pub latest : s.done ≡ false → IsLatest s.pc (history s) s.asked

  -- What the fields of the invariant say where the state of the call is known.
  at_pc : (s : Slot A) (p : Pc A) (v : Inv s) → s.pc ≡ p → Shape p s.asked v.rest
  at_pc s p v e = subst (λ q. Shape q s.asked v.rest) e v.shape

  IsFree-none : (p : Pc A) → IsFree p none
  IsFree-none (places m) = refl
  IsFree-none _ = tt

  -- A call that ends because the connection is over.
  gave_up :
      (s : Slot A) (m : A) (v : Inv s)
      → s.asked ≡ m ∷ v.rest
      → s.done ≡ true
      → Inv (record s { pc = idle })
  gave_up s m v shape d = record {
    rest = m ∷ v.rest;
    shape = shape;
    order = skip v.order;
    free = tt;
    latest = λ h. absurd (cc (d, h));
  }

  placed :
      (s : Slot A) (m : A) (v : Inv s)
      → s.asked ≡ m ∷ v.rest
      → s.slot ≡ none
      → Inv (record s { slot = some m; pc = idle })
  placed s m v shape e = record {
    rest = m ∷ v.rest;
    shape = shape;
    order = keep (subst (λ o. Subseq (kept_by o s.taken) v.rest) e v.order);
    free = tt;
    latest = λ _. ap newest (sym shape);
  }

  Step-Inv : {s t : Slot A} → Step false s t → Inv s → Inv t
  Step-Inv {s} (call m e) v = record {
    rest = s.asked;
    shape = refl;
    order = subst (λ l. Subseq (history s) l) (sym (at_pc s idle v e)) v.order;
    free = tt;
    latest = λ _. tt;
  }
  Step-Inv {s} (is_done m e d) v = gave_up s m v (at_pc s (asks m) v e) d
  Step-Inv {s} (is_open m e d) v = record {
    rest = v.rest;
    shape = at_pc s (asks m) v e;
    order = v.order;
    free = tt;
    latest = λ _. tt;
  }
  Step-Inv {s} (offer m e f) v = placed s m v (at_pc s (offers m) v e) f
  Step-Inv {s} (full m x e f) v = record {
    rest = v.rest;
    shape = at_pc s (offers m) v e;
    order = v.order;
    free = tt;
    latest = λ _. tt;
  }
  Step-Inv {s} (clear m x e f) v = record {
    rest = v.rest;
    shape = at_pc s (clears m) v e;
    order = Subseq-tail (subst (λ o. Subseq (kept_by o s.taken) v.rest) f v.order);
    free = refl;
    latest = λ _. tt;
  }
  Step-Inv {s} (cleared m e f) v = record {
    rest = v.rest;
    shape = at_pc s (clears m) v e;
    order = v.order;
    free = f;
    latest = λ _. tt;
  }
  Step-Inv {s} (place m e f) v = placed s m v (at_pc s (places m) v e) f
  Step-Inv {s} (leave m e d) v = gave_up s m v (at_pc s (places m) v e) d
  Step-Inv {s} (take x f) v = record {
    rest = v.rest;
    shape = v.shape;
    order = subst (λ o. Subseq (kept_by o s.taken) v.rest) f v.order;
    free = IsFree-none s.pc;
    latest = λ h. subst (λ o. IsLatest s.pc (kept_by o s.taken) s.asked) f (v.latest h);
  }
  Step-Inv {s} close v = record {
    rest = v.rest;
    shape = v.shape;
    order = v.order;
    free = v.free;
    latest = λ h. absurd (cc h);
  }
  Step-Inv (other_puts x h f) v = absurd (cc h)
  Step-Inv (other_clears x h f) v = absurd (cc h)

  pub Reach-Inv : {s : Slot A} → Reach false s → Inv s
  Reach-Inv start = record {
    rest = [];
    shape = refl;
    order = nothing;
    free = tt;
    latest = λ _. refl;
  }
  Reach-Inv (later r st) = Step-Inv st (Reach-Inv r)
