-- ===== src/Router/Dispatch/Fallback.antt =====
-- agent/provider_router.py: the order in which `chat` falls back.
use mathlib.Core.List.{Perm}
use mathlib.Core.List.Perm
use minicode_agent_runtime.ToolHooks.{Result, ok, raised}
use minicode_agent_runtime.Prelude.{
  ℕ, String, ◌≡◌, ◌≤◌, refl, List, [], ◌∷◌, ◌++◌, Option, none, some, All, leb, arith, Bool-cases,
  inl, inr, leb→le, leb→lt, ap, subst, sym, ◌∙◌,
}
use minicode_agent_runtime.Router.{
  ModelRoute, LlmResponse, Strategy, fallback, ModelRouter, State, Dict,
}
use minicode_agent_runtime.Router.Dispatch.{
  insert_by, sorted_by, priority_of, Try, limited, broken, answered, try_route, try_routes, give_up,
  chat, select, select_by, hinted, model_router, continue_try,
}

module _ {A : Type 0} (key : A → ℕ) where
  -- The keys ascend.
  abbrev pub Sorted : List A → Type 0
  Sorted [] = Unit
  Sorted (x ∷ xs) = All (λ y. key x ≤ key y) xs × Sorted xs

  All-insert_by :
      (P : A → Type 0) (x : A) (ys : List A) → P x → All P ys → All P (insert_by key x ys)
  unfolding insert_by
  All-insert_by P x [] px h = (px, tt)
  All-insert_by P x (y ∷ ys) px h = elim (Bool-cases (leb (key x) (key y))) [
    | inl e ↦ rw e (px, h)
    | inr e ↦ rw e (h.0, All-insert_by P x ys px h.1)
  ]

  All-le_trans : (m n : ℕ) (ys : List A) → m ≤ n → All (λ y. n ≤ key y) ys → All (λ y. m ≤ key y) ys
  All-le_trans m n [] h hs = tt
  All-le_trans m n (y ∷ ys) h hs = (omega (arith, h, hs.0), All-le_trans m n ys h hs.1)

  insert_by-Sorted : (x : A) (ys : List A) → Sorted ys → Sorted (insert_by key x ys)
  unfolding insert_by
  insert_by-Sorted x [] h = (tt, tt)
  insert_by-Sorted x (y ∷ ys) h = elim (Bool-cases (leb (key x) (key y))) [
    | inl e ↦ rw e (
      (leb→le (key x) (key y) e, All-le_trans (key x) (key y) ys (leb→le (key x) (key y) e) h.0),
      h,
    )
    | inr e ↦ rw e (
      All-insert_by (λ z. key y ≤ key z) x ys (omega (arith, leb→lt (key x) (key y) e)) h.0,
      insert_by-Sorted x ys h.1,
    )
  ]

  pub sorted_by-Sorted : (xs : List A) → Sorted (sorted_by key xs)
  unfolding sorted_by
  sorted_by-Sorted [] = tt
  sorted_by-Sorted (x ∷ xs) = insert_by-Sorted x (sorted_by key xs) (sorted_by-Sorted xs)

  insert_by-perm : (x : A) (ys : List A) → Perm (insert_by key x ys) (x ∷ ys)
  unfolding insert_by
  insert_by-perm x [] = Perm.refl _
  insert_by-perm x (y ∷ ys) = elim (Bool-cases (leb (key x) (key y))) [
    | inl e ↦ rw e (Perm.refl _)
    | inr e ↦ rw e (Perm.trans (Perm.cons y (insert_by-perm x ys)) (Perm.swap x y ys))
  ]

  pub sorted_by-perm : (xs : List A) → Perm (sorted_by key xs) xs
  unfolding sorted_by
  sorted_by-perm [] = Perm.refl _
  sorted_by-perm (x ∷ xs) = Perm.trans (insert_by-perm x _) (Perm.cons x (sorted_by-perm xs))

  All-at : (P : A → Type 0) (pre post : List A) (r : A) → All P (pre ++ r ∷ post) → P r
  All-at P [] post r h = h.0
  All-at P (x ∷ pre) post r h = All-at P pre post r h.1

  -- What stands before an element of a sorted list has no greater key, what stands behind it no
  -- smaller one.
  Sorted-around :
      (pre post : List A) (r : A)
      → Sorted (pre ++ r ∷ post)
      → All (λ x. key x ≤ key r) pre × All (λ x. key r ≤ key x) post
  Sorted-around [] post r h = (tt, h.0)
  Sorted-around (x ∷ pre) post r h =
      let (before, behind) = Sorted-around pre post r h.1 in
      ((All-at (λ y. key x ≤ key y) pre post r h.0, before), behind)

module _ {W : Type 0} (clock : W → ℕ) (ask : ModelRoute → State W → Result LlmResponse × State W)
    (m : ModelRouter) (strategy : Strategy) (contents : List String) where
  -- Routes that were tried in this order, each over its limit or failing, with the last error.
  pub data Falls
      : List ModelRoute → Option String → State W → Option String → State W → Type 0 where
    start : (last : Option String) (s : State W) → Falls [] last s last s
    over_limit :
        {r : ModelRoute} {rs : List ModelRoute} {last end : Option String} {s t u : State W}
        → try_route clock ask m strategy contents r s ≡ limited t
        → Falls rs last t end u
        → Falls (r ∷ rs) last s end u
    failing :
        {r : ModelRoute} {rs : List ModelRoute} {last end : Option String} {s t u : State W}
        → (e : String) → try_route clock ask m strategy contents r s ≡ broken e t
        → Falls rs (some e) t end u
        → Falls (r ∷ rs) last s end u

  -- One of the candidates answered, after those before it had fallen.
  pub record Served (cs : List ModelRoute) (last : Option String) (s : State W) (resp : LlmResponse)
      (t : State W) : Type 0 where
    pub before : List ModelRoute
    pub route : ModelRoute
    pub behind : List ModelRoute
    pub error : Option String
    pub state : State W
    pub split : cs ≡ before ++ route ∷ behind
    pub fell : Falls before last s error state
    pub answer : try_route clock ask m strategy contents route state ≡ answered resp t

  -- How a result came about: a candidate served it, or all fell and the last error is raised.
  abbrev pub Account :
      List ModelRoute → Option String → State W → Result LlmResponse × State W → Type 0
  Account cs last s (ok resp, t) = Served cs last s resp t
  Account cs last s (raised e, t) =
      (end : Option String) × Falls cs last s end t × (give_up end ≡ raised e)

  Account-over :
      (r : ModelRoute) (rs : List ModelRoute) (last : Option String) (s t : State W)
      (o : Result LlmResponse × State W)
      → try_route clock ask m strategy contents r s ≡ limited t
      → Account rs last t o
      → Account (r ∷ rs) last s o
  Account-over r rs last s t (ok resp, u) e h = record {
    before = r ∷ h.before;
    route = h.route;
    behind = h.behind;
    error = h.error;
    state = h.state;
    split = ap (◌∷◌ r) h.split;
    fell = over_limit e h.fell;
    answer = h.answer;
  }
  Account-over r rs last s t (raised x, u) e (end, fell, q) = (end, over_limit e fell, q)

  Account-failing :
      (r : ModelRoute) (rs : List ModelRoute) (last : Option String) (x : String) (s t : State W)
      (o : Result LlmResponse × State W)
      → try_route clock ask m strategy contents r s ≡ broken x t
      → Account rs (some x) t o
      → Account (r ∷ rs) last s o
  Account-failing r rs last x s t (ok resp, u) e h = record {
    before = r ∷ h.before;
    route = h.route;
    behind = h.behind;
    error = h.error;
    state = h.state;
    split = ap (◌∷◌ r) h.split;
    fell = failing x e h.fell;
    answer = h.answer;
  }
  Account-failing r rs last x s t (raised y, u) e (end, fell, q) = (end, failing x e fell, q)

  give_up-Account : (last : Option String) (s : State W) → Account [] last s (give_up last, s)
  unfolding give_up
  give_up-Account none s = (none, start none s, refl)
  give_up-Account (some e) s = (some e, start (some e) s, refl)

  try_routes-Account :
      (cs : List ModelRoute) (last : Option String) (s : State W)
      → Account cs last s (try_routes clock ask m strategy contents cs last s)
  unfolding try_routes
  try_routes-Account [] last s = give_up-Account last s
  try_routes-Account (r ∷ rs) last s =
      at_try (try_routes-Account rs) (try_route clock ask m strategy contents r s) refl
    where
      at_try :
          ((next : Option String) (t : State W)
            → Account rs next t (try_routes clock ask m strategy contents rs next t))
          → (x : Try W) → try_route clock ask m strategy contents r s ≡ x
          → Account
              (r ∷ rs)
              last
              s
              (continue_try (try_routes clock ask m strategy contents rs) last x)
      at_try ih (limited t) e = Account-over r rs last s t _ e (ih last t)
      at_try ih (broken x t) e = Account-failing r rs last x s t _ e (ih (some x) t)
      at_try ih (answered resp t) e = record {
        before = [];
        route = r;
        behind = rs;
        error = last;
        state = s;
        split = refl;
        fell = start last s;
        answer = e;
      }

module _ {W : Type 0} (clock : W → ℕ) (ask : ModelRoute → State W → Result LlmResponse × State W)
    (m : ModelRouter) (contents : List String) where
  pub chat-Account :
      (strategy : Strategy) (hint : Option String) (s : State W)
      → let (cs, s') = select m strategy hint s in
        Account clock ask m strategy contents cs none s' (chat clock ask m strategy contents hint s)
  unfolding chat
  chat-Account strategy hint s =
      try_routes-Account clock ask m strategy contents (select m strategy hint s).0 none
        (select m strategy hint s).1

ok_inj : {A : Type 0} (a b : A) → ok a ≡ ok b → a ≡ b
ok_inj a b e = cc

model_router-routes :
    (given : List ModelRoute) (costs : Dict (Dict ℕ)) (m : ModelRouter)
    → model_router given costs ≡ ok m
    → m.routes ≡ sorted_by priority_of given
unfolding model_router
model_router-routes [] costs m e = absurd (cc e)
model_router-routes (r ∷ rs) costs m e = sym (ap (λ (k : ModelRouter). k.routes) (ok_inj _ m e))

-- The routes are those given, by priority; those before the one that served have been tried.
pub record ServedByPriority {W : Type 0} (clock : W → ℕ)
    (ask : ModelRoute → State W → Result LlmResponse × State W) (m : ModelRouter)
    (contents : List String) (given : List ModelRoute) (s : State W) (resp : LlmResponse)
    (t : State W) : Type 0 where
  pub served : Served clock ask m fallback contents m.routes none s resp t
  pub all : Perm (served.before ++ served.route ∷ served.behind) given
  pub urgent : All (λ r. r.priority ≤ served.route.priority) served.before
  pub spare : All (λ r. served.route.priority ≤ r.priority) served.behind

-- If chat with the fallback strategy and no hint returns a reply, a route of the router gave it,
-- every route that was tried before it had failed or was over its limit, those have no greater
-- priority number, the routes left untried have no smaller one, and all together they are the
-- routes that the router was made of.
pub chat-fallback :
    {W : Type 0} (clock : W → ℕ) (ask : ModelRoute → State W → Result LlmResponse × State W)
    (m : ModelRouter) (contents : List String) (given : List ModelRoute) (costs : Dict (Dict ℕ))
    (s t : State W) (resp : LlmResponse)
    → model_router given costs ≡ ok m
    → chat clock ask m fallback contents none s ≡ (ok resp, t)
    → ServedByPriority clock ask m contents given s resp t
unfolding select select_by hinted
chat-fallback clock ask m contents given costs s t resp made e =
    let h : Served clock ask m fallback contents m.routes none s resp t =
      subst (Account clock ask m fallback contents m.routes none s) e
        (chat-Account clock ask m contents fallback none s) in
    let routes = model_router-routes given costs m made in
    let around =
      Sorted-around priority_of h.before h.behind h.route
        (subst (Sorted priority_of) (sym routes ∙ h.split) (sorted_by-Sorted priority_of given)) in
    record {
      served = h;
      all = subst (λ l. Perm l given) (sym routes ∙ h.split) (sorted_by-perm priority_of given);
      urgent = around.0;
      spare = around.1;
    }
