-- ===== src/Session/Valid/Steps.antt =====
-- Triples on the steps of a transaction of internal/session/session.go: from tables with P, a
-- step that succeeds leads to a result and tables with Q.
use podium.Base.{
  ℕ, ◌≡◌, refl, sym, ap, ◌∙◌, Bool, true, false, some, Result, ok, if◌then◌else◌, subst,
}
use podium.Games.Common as Games
use podium.Session.Store.{
  is_active, GameSession, Store, Failure, Call, Env, Tx, ◌>>=◌, pure, lift_game, attempt,
  get_game_session,
}
use podium.Session.Service.{transact, owned, open_}
use podium.Session.Valid.Queries.{>>=-ok, attempt-ok, lift_game-ok}
use podium.Session.Valid.Requests.{transact-ok, owned-ok, open-ok, get_game_session-ok}

module _ {F : Type 0} where
  pub record Keeps {A : Type 0} (P : Store F → Type 0) (m : Tx F A) (Q : A → Store F → Type 0)
      : Type 0 where
    pub run : (st st' : Store F) (a : A) → P st → m st ≡ ok (a, st') → Q a st'

  ok_pair :
      {A : Type 0} {a a' : A} {s s' : Store F}
      → ◌≡◌ {A = Result Failure (A × Store F)} (ok (a, s)) (ok (a', s'))
      → (a ≡ a') × (s ≡ s')
  ok_pair h = (cc, cc)

  pub after :
      {A B : Type 0} {P : Store F → Type 0} {R : A → Store F → Type 0} {Q : B → Store F → Type 0}
      (m : Tx F A) (k : A → Tx F B)
      → Keeps P m R
      → ((a : A) → Keeps (R a) (k a) Q)
      → Keeps P (m >>= k) Q
  after m k first rest = record {
    run = λ st st' b p h.
        let (a, mid, r, h') = >>=-ok m k st h in (rest a).run mid st' b (first.run st mid a p r) h';
  }

  pub keep_pure :
      {A : Type 0} {P : Store F → Type 0} {Q : A → Store F → Type 0} (a : A)
      → ((st : Store F) → P st → Q a st)
      → Keeps P (pure a) Q
  keep_pure {Q} a h = record {
    run = λ st st' b p e.
        let (x, y) = ok_pair e in subst (λ t. Q b t) y (subst (λ t. Q t st) x (h st p));
  }

  pub keep_attempt :
      {A : Type 0} {P : Store F → Type 0} {Q : A → Store F → Type 0} (env : Env) (call : Call)
      (m : Tx F A)
      → Keeps P m Q
      → Keeps P (attempt env call m) Q
  keep_attempt env call m k = record {
    run = λ st st' b p e. k.run st st' b p (attempt-ok env call m st e);
  }

  pub keep_transact :
      {A : Type 0} {P : Store F → Type 0} {Q : A → Store F → Type 0} (env : Env) (m : Tx F A)
      → Keeps P m Q
      → Keeps P (transact env m) Q
  keep_transact env m k = record { run = λ st st' b p e. k.run st st' b p (transact-ok env m st e) }

  pub keep_game :
      {A : Type 0} {P : Store F → Type 0} (r : Result Games.Error A)
      → Keeps P (lift_game r) (λ a st. P st × (r ≡ ok a))
  keep_game {P} r = record {
    run = λ st st' b p e. let (x, y) = lift_game-ok r st e in (subst P (sym y) p, x);
  }

  pub keep_get :
      {P : Store F → Type 0} (id : ℕ)
      → Keeps P (get_game_session id) (λ row st. P st × (st.sessions id ≡ some row))
  keep_get {P} id = record {
    run = λ st st' row p e.
        let (x, y) = get_game_session-ok id st st' e in
        (subst P (sym y) p, ap (λ (t : Store F). t.sessions id) y ∙ x);
  }

  pub keep_owned :
      {P : Store F → Type 0} (user : ℕ) (row : GameSession)
      → Keeps P (owned user row) (λ _ st. P st × (row.user_id ≡ user))
  keep_owned {P} user row = record {
    run = λ st st' a p e. let (x, y) = owned-ok user row st st' e in (subst P (sym y) p, x);
  }

  pub keep_open :
      {P : Store F → Type 0} (row : GameSession)
      → Keeps P (open_ row) (λ _ st. P st × (is_active row.status ≡ true))
  keep_open {P} row = record {
    run = λ st st' a p e. let (x, y) = open-ok row st st' e in (subst P (sym y) p, x);
  }

  pub weaken :
      {A : Type 0} {P P' : Store F → Type 0} {Q Q' : A → Store F → Type 0} (m : Tx F A)
      → ((st : Store F) → P' st → P st)
      → ((a : A) (st : Store F) → Q a st → Q' a st)
      → Keeps P m Q
      → Keeps P' m Q'
  weaken m f g k = record { run = λ st st' a p e. g a st' (k.run st st' a (f st p) e) }

  -- What the tables before a step say apart from the tables.
  pub given :
      {A : Type 0} {P : Store F → Type 0} {Q : A → Store F → Type 0} {φ : Type 0} (m : Tx F A)
      → ((st : Store F) → P st → φ)
      → (φ → Keeps P m Q)
      → Keeps P m Q
  given m fact k = record { run = λ st st' a p e. (k (fact st p)).run st st' a p e }

  pub keep_if :
      {A : Type 0} {P : Store F → Type 0} {Q : A → Store F → Type 0} (b : Bool) (m n : Tx F A)
      → (b ≡ true → Keeps P m Q)
      → (b ≡ false → Keeps P n Q)
      → Keeps P (if b then m else n) Q
  keep_if true m n y z = y refl
  keep_if false m n y z = z refl
