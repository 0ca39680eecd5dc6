-- ===== src/Rbac/Hierarchy.antt =====
-- The order of the roles, and what the permission tables grant along it.
use crm_with_blockchain_rag.Base.{
  Bool, Bool-cases, List, Option-cases, String, [], any, arith, eq_iff, every, false, includes, inl,
  inr, ltb, refl, some, subst, sym, true, ℕ, ◌&&◌, ◌===◌, ◌↔◌, ◌∷◌, ◌≡◌, ◌⊎◌,
}
use crm_with_blockchain_rag.Rbac.{
  Permission, role_levels, allows, level, can_manage_user, names_below, manageable_roles, granted,
  can_activate, entry, has_permission, super_admin_permissions, role_permissions,
}

-- Managing is a strict order: nobody manages a user of the same role, two users never manage each
-- other, and whoever manages a manager manages those that the manager manages.
pub can_manage_user_order :
    (a b c : String)
    → (can_manage_user a a ≡ false)
      × (can_manage_user a b ≡ true → can_manage_user b a ≡ false)
      × (can_manage_user a b ≡ true → can_manage_user b c ≡ true → can_manage_user a c ≡ true)
unfolding can_manage_user
can_manage_user_order a b c = (ground arith, λ h. ground arith, λ h k. ground arith)

names_below-includes :
    (n : ℕ) (r : String) (l : List (String × ℕ))
    → includes (names_below n l) r ≡ true
    → any (λ e. e.0 === r && ltb e.1 n) l ≡ true
names_below-includes n r [] h = cc
names_below-includes n r ((s, m) ∷ l) h = ground (arith, names_below-includes n r l)

-- A listed role below a bound has its level below it.
level-below :
    (n : ℕ) (r : String)
    → any (λ e. e.0 === r && ltb e.1 n) role_levels ≡ true
    → ltb (level r) n ≡ true
unfolding level
level-below n r h = elim (Bool-cases ("SUPER_ADMIN" === r)) [
  | inl y ↦ at "SUPER_ADMIN" y (λ k. ground arith)
  | inr n₁ ↦ elim (Bool-cases ("ADMIN" === r)) [
    | inl y ↦ at "ADMIN" y (λ k. ground arith)
    | inr n₂ ↦ elim (Bool-cases ("SALES_MANAGER" === r)) [
      | inl y ↦ at "SALES_MANAGER" y (λ k. ground arith)
      | inr n₃ ↦ elim (Bool-cases ("SALES_REP" === r)) [
        | inl y ↦ at "SALES_REP" y (λ k. ground arith)
        | inr n₄ ↦ elim (Bool-cases ("SUPPORT_AGENT" === r)) [
          | inl y ↦ at "SUPPORT_AGENT" y (λ k. ground arith)
          | inr n₅ ↦ elim (Bool-cases ("VIEWER" === r)) [
            | inl y ↦ at "VIEWER" y (λ k. ground arith)
            | inr n₆ ↦ ground arith
          ]
        ]
      ]
    ]
  ]
]
  where
    at :
        (role : String)
        → (role === r) ≡ true
        → (any (λ e. e.0 === role && ltb e.1 n) role_levels ≡ true → ltb (level role) n ≡ true)
        → ltb (level r) n ≡ true
    at role y f =
        let same : role ≡ r = (eq_iff role r).0 y in
        subst (λ x. ltb (level x) n ≡ true) same
          (f (subst (λ x. any (λ e. e.0 === x && ltb e.1 n) role_levels ≡ true) (sym same) h))

-- The roles that a role is told it can manage are roles that `canManageUser` lets it manage.
pub manageable_roles_sound :
    (actor target : String)
    → includes (manageable_roles actor) target ≡ true
    → can_manage_user actor target ≡ true
unfolding manageable_roles can_manage_user
manageable_roles_sound actor target h =
    level-below (level actor) target (names_below-includes (level actor) target role_levels h)

-- `a` grants nothing that `b` does not.
abbrev covered : List Permission → List Permission → Bool
covered a b = every (λ p. every (λ action. allows b p.resource action) p.actions) a

covered-allows :
    (a b : List Permission) (resource action : String)
    → covered a b ≡ true
    → allows a resource action ≡ true
    → allows b resource action ≡ true
unfolding allows
covered-allows [] b resource action h k = cc
covered-allows (p ∷ a) b resource action h k = elim (Bool-cases (p.resource === resource)) [
  | inr other ↦ covered-allows a b resource action (ground arith) (ground arith)
  | inl same ↦
      let here : p.resource ≡ resource = (eq_iff p.resource resource).0 same in
      subst (λ r. allows b r action ≡ true) here
        (granted_action p.actions (ground arith) (ground arith))
]
  where
    granted_action :
        (l : List String)
        → every (λ x. allows b p.resource x) l ≡ true
        → includes l action ≡ true
        → allows b p.resource action ≡ true
    granted_action [] e i = cc
    granted_action (x ∷ l) e i = elim (Bool-cases (x === action)) [
      | inl y ↦ subst (λ z. allows b p.resource z ≡ true) ((eq_iff x action).0 y) (ground arith)
      | inr n ↦ granted_action l (ground arith) (ground arith)
    ]

entries_covered :
    (b : List Permission) (l : List (String × List Permission)) (role resource action : String)
    → every (λ e. covered e.1 b) l ≡ true
    → (t : List Permission) → entry l role ≡ some t
    → allows t resource action ≡ true
    → allows b resource action ≡ true
entries_covered b [] role resource action h t e k = cc
entries_covered b ((r, u) ∷ l) role resource action h t e k = elim (Bool-cases (r === role)) [
  | inl y ↦
      let same : u ≡ t = ground arith in
      covered-allows t b resource action (rw (← same) (ground arith)) k
  | inr n ↦ entries_covered b l role resource action (ground arith) t (ground arith) k
]

-- Whatever any role may do, a super admin may do.
pub has_permission-super_admin :
    (role resource action : String)
    → has_permission role resource action ≡ true
    → has_permission "SUPER_ADMIN" resource action ≡ true
unfolding has_permission
has_permission-super_admin role resource action h =
    elim (Option-cases (entry role_permissions role)) [
      | inl unknown ↦ ground arith
      | inr (t, found) ↦
          entries_covered super_admin_permissions role_permissions role resource action tables t
            found (ground arith)
    ]
  where
    tables : every (λ e. covered e.1 super_admin_permissions) role_permissions ≡ true
    tables = unfold allows in refl

-- The guard grants exactly what its rule says: routes without a role, and users with one of the
-- roles of the route or with the role of super admin.
pub can_activate_iff :
    (roles : List String) (role : String)
    → (can_activate (some roles) (some role) ≡ granted)
      ↔ ((roles ≡ []) ⊎ (role ≡ "SUPER_ADMIN") ⊎ (includes roles role ≡ true))
unfolding can_activate
can_activate_iff [] role = ground arith
can_activate_iff (r ∷ roles) role = ground (arith, eq_iff role "SUPER_ADMIN")
