-- ===== src/Db/Items/Merge.antt =====
-- The merge of a stored row with what a source says of the same item.
use cyberwatch_rs.Prelude.{
  leb, leb→le, Bool-cases, is_some, ◌≤◌, String, ◌≡◌, refl, inl, inr, true, false, Option, none,
  some, arith,
}
use cyberwatch_rs.Prelude.Order.{
  text_lt, text_lt_irrefl, text_lt_trans, text_lt-cases, min_text, max_text,
}
use cyberwatch_rs.Prelude.Float.{Float}
use cyberwatch_rs.Db.Store.{coalesce, ItemRow}
use cyberwatch_rs.Db.Items.{stored_rank, merge, either}

-- A time that is known stays known, and no later one takes its place.
abbrev pub NotLater : Option String → Option String → Type 0
NotLater none new = Unit
NotLater (some old) none = ⊥
NotLater (some old) (some new) = text_lt old new ≡ false

abbrev pub NotEarlier : Option String → Option String → Type 0
NotEarlier none new = Unit
NotEarlier (some old) none = ⊥
NotEarlier (some old) (some new) = text_lt new old ≡ false

-- What is known stays known.
abbrev pub Kept {ℓ} : {A : Type ℓ} → Option A → Option A → Type 0
Kept old new = is_some old ≡ true → is_some new ≡ true

module _ {F : Type 0} where
  pub record Grows (old new : ItemRow F) : Type 0 where
    pub trust : old.source_trust ≤ new.source_trust
    pub rank : stored_rank old.severity ≤ stored_rank new.severity
    pub exploited : old.exploited ≡ true → new.exploited ≡ true
    pub published : NotLater old.published_at new.published_at
    pub updated : NotEarlier old.source_updated_at new.source_updated_at
    pub cve : Kept old.cve_id new.cve_id
    pub score : Kept old.cvss_score new.cvss_score
    pub kev : Kept old.kev_date_added new.kev_date_added
    pub due : Kept old.due_date new.due_date

NotLater-refl : (a : Option String) → NotLater a a
NotLater-refl none = tt
NotLater-refl (some a) = text_lt_irrefl a

NotEarlier-refl : (a : Option String) → NotEarlier a a
NotEarlier-refl none = tt
NotEarlier-refl (some a) = text_lt_irrefl a

not_lt_trans : (a b c : String) → text_lt a b ≡ false → text_lt b c ≡ false → text_lt a c ≡ false
not_lt_trans a b c h k = elim (text_lt-cases b c) [
  | inl e ↦ rw (← e) h
  | inr (inl less) ↦ cc
  | inr (inr more) ↦ elim (Bool-cases (text_lt a c)) [
    | inl less ↦ cc (text_lt_trans a c b less more)
    | inr e ↦ e
  ]
]

NotLater-trans : (a b c : Option String) → NotLater a b → NotLater b c → NotLater a c
NotLater-trans none b c h k = tt
NotLater-trans (some a) none c h k = absurd h
NotLater-trans (some a) (some b) none h k = k
NotLater-trans (some a) (some b) (some c) h k = not_lt_trans a b c h k

NotEarlier-trans : (a b c : Option String) → NotEarlier a b → NotEarlier b c → NotEarlier a c
NotEarlier-trans none b c h k = tt
NotEarlier-trans (some a) none c h k = absurd h
NotEarlier-trans (some a) (some b) none h k = k
NotEarlier-trans (some a) (some b) (some c) h k = not_lt_trans c b a k h

module _ {F : Type 0} where
  pub Grows-refl : (a : ItemRow F) → Grows a a
  Grows-refl a = record {
    trust = omega arith;
    rank = omega arith;
    exploited = λ h. h;
    published = NotLater-refl a.published_at;
    updated = NotEarlier-refl a.source_updated_at;
    cve = λ h. h;
    score = λ h. h;
    kev = λ h. h;
    due = λ h. h;
  }

  pub Grows-trans : (a b c : ItemRow F) → Grows a b → Grows b c → Grows a c
  Grows-trans a b c h k = record {
    trust = omega (arith, h.trust, k.trust);
    rank = omega (arith, h.rank, k.rank);
    exploited = λ e. k.exploited (h.exploited e);
    published = NotLater-trans _ _ _ h.published k.published;
    updated = NotEarlier-trans _ _ _ h.updated k.updated;
    cve = λ e. k.cve (h.cve e);
    score = λ e. k.score (h.score e);
    kev = λ e. k.kev (h.kev e);
    due = λ e. k.due (h.due e);
  }

NotLater-either : (a b : Option String) → NotLater a (either min_text a b)
unfolding min_text
NotLater-either none b = tt
NotLater-either (some a) none = text_lt_irrefl a
NotLater-either (some a) (some b) = elim (Bool-cases (text_lt b a)) [
  | inl e ↦ rw e (elim (Bool-cases (text_lt a b)) [
    | inl f ↦ cc (text_lt_trans a b a f e, text_lt_irrefl a)
    | inr f ↦ f
  ])
  | inr e ↦ rw e (text_lt_irrefl a)
]

NotEarlier-either : (a b : Option String) → NotEarlier a (either max_text a b)
unfolding max_text
NotEarlier-either none b = tt
NotEarlier-either (some a) none = text_lt_irrefl a
NotEarlier-either (some a) (some b) = elim (Bool-cases (text_lt a b)) [
  | inl e ↦ rw e (elim (Bool-cases (text_lt b a)) [
    | inl f ↦ cc (text_lt_trans b a b f e, text_lt_irrefl b)
    | inr f ↦ f
  ])
  | inr e ↦ rw e (text_lt_irrefl a)
]

Kept-coalesce {ℓ} : {A : Type ℓ} (a b : Option A) → Kept b (coalesce a b)
Kept-coalesce none b h = h
Kept-coalesce (some a) b h = refl

Kept-either {ℓ} : {A : Type ℓ} (f : A → A → A) (a b : Option A) → Kept a (either f a b)
Kept-either f none b h = cc
Kept-either f (some a) none h = refl
Kept-either f (some a) (some b) h = refl

rank-coalesce :
    (new old : Option String)
    → stored_rank old ≤ stored_rank new
    → stored_rank old ≤ stored_rank (coalesce new old)
rank-coalesce none old h = omega arith
rank-coalesce (some new) old h = h

module _ {F : Type 0} (float : Float F) where
  merge_rank : (a b : ItemRow F) → stored_rank a.severity ≤ stored_rank (merge float a b).severity
  unfolding merge
  merge_rank a b = elim (Bool-cases (leb (stored_rank a.severity) (stored_rank b.severity))) [
    | inl e ↦ rw e (rank-coalesce b.severity a.severity (leb→le _ _ e))
    | inr e ↦ rw e (omega arith)
  ]

  pub merge-Grows : (a b : ItemRow F) → Grows a (merge float a b)
  unfolding merge
  merge-Grows a b = record {
    trust = omega arith;
    rank = merge_rank a b;
    exploited = λ h. rw h refl;
    published = NotLater-either a.published_at b.published_at;
    updated = NotEarlier-either a.source_updated_at b.source_updated_at;
    cve = Kept-coalesce b.cve_id a.cve_id;
    score = Kept-either float.maximum a.cvss_score b.cvss_score;
    kev = Kept-coalesce b.kev_date_added a.kev_date_added;
    due = Kept-coalesce b.due_date a.due_date;
  }
