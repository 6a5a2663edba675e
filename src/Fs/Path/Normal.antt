-- ===== src/Fs/Path/Normal.antt =====
-- Normal paths: what `normalize` gives, and that it gives it again.
use omniagent_os.Base.{
  ℕ, zero, suc, ◌-◌, ◌==◌, if◌then◌else◌, ◌≡◌, refl, sym, ap, ap₂, ◌∙◌, subst, Bool, true, false,
  not, ◌&&◌, List, [], ◌∷◌, ◌++◌, is_empty, arith, Bool-cases, inl, inr,
}
use omniagent_os.Base.Strings.{Bytes, same}
use omniagent_os.Base.All.{All, All-append, All-imp}
use omniagent_os.Fs.Path.{
  slash, dot, dot_dot, split, components, is_absolute, ends_with_slash, pop, step, resolve_dots,
  with_slashes, rooted, close, normalize,
}
use omniagent_os.Fs.Path.Components.{
  IsName, components-rooted, components-closed, components-with_slashes, components-IsName,
  append-nil,
}

-- A component that is neither `.` nor `..`.
abbrev pub IsPlain : Bytes → Type 0
IsPlain w = (same w dot ≡ false) × (same w dot_dot ≡ false)

abbrev IsNormal : Bytes → Type 0
IsNormal w = IsName w × IsPlain w

pop-All : (P : Bytes → Type 0) (ws : List Bytes) → All P ws → All P (pop ws)
unfolding pop
pop-All P [] h = tt
pop-All P (w ∷ []) h = tt
pop-All P (w ∷ v ∷ ws) h = (h.0, pop-All P (v ∷ ws) h.1)

step-IsNormal :
    (stack : List Bytes) (c : Bytes) → All IsNormal stack → IsName c → All IsNormal (step stack c)
unfolding step
step-IsNormal stack c h n = elim (Bool-cases (same c dot)) [
  | inl y ↦ simp y h
  | inr x ↦ elim (Bool-cases (same c dot_dot)) [
    | inl y ↦ simp x (simp y (pop-All IsNormal stack h))
    | inr z ↦ simp x (simp z (All-append IsNormal stack (c ∷ []) h ((n, (x, z)), tt)))
  ]
]

resolve_dots-IsNormal :
    (stack cs : List Bytes)
    → All IsNormal stack
    → All IsName cs
    → All IsNormal (resolve_dots stack cs)
unfolding resolve_dots
resolve_dots-IsNormal stack [] h n = h
resolve_dots-IsNormal stack (c ∷ cs) h n =
    resolve_dots-IsNormal (step stack c) cs (step-IsNormal stack c h n.0) n.1

append_assoc : {A : Type 0} (xs ys zs : List A) → (xs ++ ys) ++ zs ≡ xs ++ (ys ++ zs)
append_assoc [] ys zs = refl
append_assoc (x ∷ xs) ys zs = ap (λ l. x ∷ l) (append_assoc xs ys zs)

-- Components without dots are kept.
resolve_dots_plain : (stack cs : List Bytes) → All IsPlain cs → resolve_dots stack cs ≡ stack ++ cs
unfolding resolve_dots step
resolve_dots_plain stack [] h = sym (append-nil stack)
resolve_dots_plain stack (c ∷ cs) h =
    simp h.0.0
      (simp h.0.1 (resolve_dots_plain (stack ++ (c ∷ [])) cs h.1 ∙ append_assoc stack (c ∷ []) cs))

stack_of : Bytes → List Bytes
stack_of path = resolve_dots [] (components path)

stack-IsNormal : (path : Bytes) → All IsNormal (stack_of path)
unfolding stack_of
stack-IsNormal path = resolve_dots-IsNormal [] (components path) tt (components-IsName path)

components-rooted_stack :
    (absolute : Bool) (ws : List Bytes) → All IsName ws → components (rooted absolute ws) ≡ ws
components-rooted_stack true ws h =
    components-rooted (with_slashes ws) ∙ components-with_slashes ws h
components-rooted_stack false ws h = components-with_slashes ws h

components-close :
    (trailing : Bool) (result : Bytes) → components (close trailing result) ≡ components result
components-close trailing result =
    elim (Bool-cases (trailing && (not (ends_with_slash result) && not (is_empty result)))) [
      | inl y ↦ simp y (components-closed result)
      | inr n ↦ simp n refl
    ]

empty_path :
    (path : Bytes)
    → is_empty path ≡ true
    → components (normalize path) ≡ resolve_dots [] (components path)
unfolding normalize components split resolve_dots
empty_path [] h = refl
empty_path (c ∷ cs) h = absurd (cc h)

components-resolve_dots :
    (path : Bytes)
    → (components (normalize path) ≡ resolve_dots [] (components path))
      × All IsPlain (components (normalize path))
unfolding normalize stack_of
components-resolve_dots path = (
  same_stack,
  subst (All IsPlain) (sym same_stack)
      (All-imp IsNormal IsPlain (stack_of path) (λ w h. h.1) (stack-IsNormal path)),
)
  where
    same_stack : components (normalize path) ≡ resolve_dots [] (components path)
    same_stack = elim (Bool-cases (is_empty path)) [
      | inl y ↦ empty_path path y
      | inr n ↦ simp n (
          components-close (ends_with_slash path) (rooted (is_absolute path) (stack_of path))
          ∙ components-rooted_stack (is_absolute path) (stack_of path)
              (All-imp IsNormal IsName (stack_of path) (λ w h. h.0) (stack-IsNormal path)))
    ]

-- A name is taken away if there is one to take away, and is kept otherwise.
abbrev pub name_before : Bytes → ℕ → List Bytes → ℕ × List Bytes
name_before c away rest = if away == 0 then (0, c ∷ rest) else (away - 1, rest)

-- The components of a path that are left, found from its end: how many of the names before are
-- taken away, and those that are kept. Each `..` takes away one more, and a `.` does nothing.
unfoldable pub kept : List Bytes → ℕ × List Bytes
kept [] = (0, [])
kept (c ∷ cs) =
    let (away, rest) = kept cs in
    if same c dot
    then (away, rest)
    else (if same c dot_dot then (suc away, rest) else name_before c away rest)

abbrev without_last : ℕ → List Bytes → List Bytes
without_last zero ws = ws
without_last (suc n) ws = without_last n (pop ws)

pop-snoc : (ws : List Bytes) (c : Bytes) → pop (ws ++ (c ∷ [])) ≡ ws
unfolding pop
pop-snoc [] c = refl
pop-snoc (w ∷ []) c = refl
pop-snoc (w ∷ v ∷ ws) c = ap (λ l. w ∷ l) (pop-snoc (v ∷ ws) c)

without_last-none : (n : ℕ) → without_last n [] ≡ []
unfolding pop
without_last-none zero = refl
without_last-none (suc n) = without_last-none n

-- A name that is put on the stack is kept, or taken away.
without_last-snoc :
    (n : ℕ) (stack rest : List Bytes) (c : Bytes)
    → without_last n (stack ++ (c ∷ [])) ++ rest
      ≡ without_last (name_before c n rest).0 stack ++ (name_before c n rest).1
without_last-snoc zero stack rest c = append_assoc stack (c ∷ []) rest
without_last-snoc (suc n) stack rest c =
    let used : (suc n == 0) ≡ false = ground arith in
    let less : suc n - 1 ≡ n = omega arith in
    simp used (simp less (ap (λ l. without_last n l ++ rest) (pop-snoc stack c)))

resolve_dots-kept :
    (stack cs : List Bytes) → resolve_dots stack cs ≡ without_last (kept cs).0 stack ++ (kept cs).1
unfolding resolve_dots step kept
resolve_dots-kept stack [] = sym (append-nil stack)
resolve_dots-kept stack (c ∷ cs) = elim (Bool-cases (same c dot)) [
  | inl y ↦ simp y (resolve_dots-kept stack cs)
  | inr x ↦ simp x (elim (Bool-cases (same c dot_dot)) [
    | inl y ↦ simp y (resolve_dots-kept (pop stack) cs)
    | inr z ↦ simp z (
        resolve_dots-kept (stack ++ (c ∷ [])) cs
        ∙ without_last-snoc (kept cs).0 stack (kept cs).1 c)
  ])
]

-- The components of a normal path are those of the path that neither are `.` or `..` nor are taken
-- away by a `..` that comes later, each `..` taking away the last name before it that is left, if
-- there is one; and none of them is `.` or `..`.
pub components-normalize :
    (path : Bytes)
    → (components (normalize path) ≡ (kept (components path)).1)
      × All IsPlain (components (normalize path))
components-normalize path =
    let (e, plain) = components-resolve_dots path in
    let n = (kept (components path)).0 in
    (
      e
          ∙ resolve_dots-kept [] (components path)
          ∙ ap (λ l. l ++ (kept (components path)).1) (without_last-none n),
      plain,
    )

pub ends-closed : (result : Bytes) → ends_with_slash (result ++ (slash ∷ [])) ≡ true
unfolding ends_with_slash
ends-closed [] = refl
ends-closed (c ∷ []) = refl
ends-closed (c ∷ d ∷ cs) = ends-closed (d ∷ cs)

close_again :
    (trailing : Bool) (r : Bytes) → close (ends_with_slash (close trailing r)) r ≡ close trailing r
close_again trailing r =
    elim (Bool-cases (trailing && (not (ends_with_slash r) && not (is_empty r)))) [
      | inl y ↦
          let open_end : (not (ends_with_slash r) && not (is_empty r)) ≡ true = ground (arith, y) in
          simp y (simp (ends-closed r) (simp open_end refl))
      | inr n ↦
          simp n
            (elim (Bool-cases (ends_with_slash r)) [ inl e ↦ simp e refl | inr e ↦ simp e refl ])
    ]

absolute-close : (trailing : Bool) (r : Bytes) → is_absolute (close trailing r) ≡ is_absolute r
unfolding is_absolute ends_with_slash
absolute-close true [] = refl
absolute-close false [] = refl
absolute-close trailing (c ∷ cs) =
    elim (Bool-cases (trailing && (not (ends_with_slash (c ∷ cs)) && true))) [
      | inl y ↦ simp y refl
      | inr n ↦ simp n refl
    ]

absolute-name : (w : Bytes) (rest : Bytes) → IsName w → is_absolute (w ++ rest) ≡ false
unfolding is_absolute
absolute-name [] rest h = absurd (cc h.0)
absolute-name (c ∷ cs) rest h = h.1.0

absolute-slash : (r : Bytes) → is_absolute (slash ∷ r) ≡ true
unfolding is_absolute
absolute-slash r = refl

absolute-rooted :
    (absolute : Bool) (ws : List Bytes)
    → All IsName ws
    → is_empty (rooted absolute ws) ≡ false
    → is_absolute (rooted absolute ws) ≡ absolute
unfolding with_slashes
absolute-rooted true ws h e = absolute-slash (with_slashes ws)
absolute-rooted false [] h e = absurd (cc e)
absolute-rooted false (w ∷ []) h e =
    subst (λ x. is_absolute x ≡ false) (append-nil w) (absolute-name w [] h.0)
absolute-rooted false (w ∷ v ∷ ws) h e = absolute-name w (slash ∷ with_slashes (v ∷ ws)) h.0

normalize_used :
    (path : Bytes)
    → is_empty path ≡ false
    → normalize path
      ≡ close (ends_with_slash path) (rooted (is_absolute path) (resolve_dots [] (components path)))
unfolding normalize
normalize_used path h = simp h refl

normalize_empty : (path : Bytes) → is_empty path ≡ true → normalize path ≡ path
unfolding normalize
normalize_empty [] h = refl
normalize_empty (c ∷ cs) h = absurd (cc h)

empty-close :
    (trailing : Bool) (r : Bytes) → is_empty (close trailing r) ≡ false → is_empty r ≡ false
unfolding ends_with_slash
empty-close true [] h = absurd (cc h)
empty-close false [] h = absurd (cc h)
empty-close trailing (c ∷ cs) h = refl

-- What `normalize` gives, `normalize` keeps.
pub normalize-normalize : (path : Bytes) → normalize (normalize path) ≡ normalize path
unfolding stack_of
normalize-normalize path = elim (Bool-cases (is_empty (normalize path))) [
  | inl y ↦ normalize_empty (normalize path) y
  | inr n ↦ elim (Bool-cases (is_empty path)) [
    | inl z ↦ ap normalize (normalize_empty path z)
    | inr m ↦ again m n
  ]
]
  where
    again :
        is_empty path ≡ false
        → is_empty (normalize path) ≡ false
        → normalize (normalize path) ≡ normalize path
    again m n =
        let trailing = ends_with_slash path in
        let stack = stack_of path in
        let r = rooted (is_absolute path) stack in
        let names : All IsName stack =
          All-imp IsNormal IsName stack (λ w h. h.0) (stack-IsNormal path) in
        let plain : All IsPlain stack =
          All-imp IsNormal IsPlain stack (λ w h. h.1) (stack-IsNormal path) in
        let once : normalize path ≡ close trailing r = normalize_used path m in
        let used : is_empty r ≡ false =
          empty-close trailing r (subst (λ x. is_empty x ≡ false) once n) in
        let parts : components (close trailing r) ≡ stack =
          components-close trailing r ∙ components-rooted_stack (is_absolute path) stack names in
        let stack' : resolve_dots [] (components (close trailing r)) ≡ stack =
          ap (resolve_dots []) parts ∙ resolve_dots_plain [] stack plain in
        let absolute : is_absolute (close trailing r) ≡ is_absolute path =
          absolute-close trailing r ∙ absolute-rooted (is_absolute path) stack names used in
        normalize_used (normalize path) n
        ∙ ap
            (λ x.
              close (ends_with_slash x) (rooted (is_absolute x) (resolve_dots [] (components x))))
            once
        ∙ ap₂ (λ a w. close (ends_with_slash (close trailing r)) (rooted a w)) absolute stack'
        ∙ close_again trailing r
        ∙ sym once
