-- ===== src/ThreadPool/History.antt =====
-- What a history of base/threadpool.c amounts to, in terms of the nodes that are queued.
use wee.Base.{
  subst, ℕ, ◌+◌, ◌<◌, ◌≡◌, ◌≢◌, refl, ap, ap₂, sym, ◌∙◌, inl, inr, Bool, true, false, List, [], ◌∷◌,
  ◌++◌, append_assoc, append-nil, if◌then◌else◌, Bool-cases, arith,
}
use wee.ThreadPool.Nodes.{
  member, erase, none_in, first, erase-nonmember, times, times-append, times-erase-member,
}
use wee.ThreadPool.Within.{Within, Within-snoc, Within-erase}
use wee.ThreadPool.{exit_message}

-- what stands behind the tasks in the queue
abbrev pub exit_of : Bool → List ℕ
exit_of true = exit_message ∷ []
exit_of false = []

erase-tasks :
    (t : ℕ) (tasks : List ℕ) (released : Bool)
    → t ≢ 0
    → erase t (tasks ++ exit_of released) ≡ erase t tasks ++ exit_of released
erase-tasks t [] true ne = ground (arith, ne)
erase-tasks t [] false ne = refl
erase-tasks t (x ∷ xs) r ne = ground (arith, erase-tasks t xs r ne)

member-tasks :
    (t : ℕ) (tasks : List ℕ) (released : Bool)
    → t ≢ 0
    → member t (tasks ++ exit_of released) ≡ member t tasks
member-tasks t [] true ne = ground (arith, ne)
member-tasks t [] false ne = refl
member-tasks t (x ∷ xs) r ne = ground (arith, member-tasks t xs r ne)

member-erase : (n t : ℕ) (xs : List ℕ) → member n xs ≡ false → member n (erase t xs) ≡ false
member-erase n t [] e = refl
member-erase n t (x ∷ xs) e = ground (arith, member-erase n t xs)

member-snoc :
    (n t : ℕ) (xs : List ℕ) → n ≢ t → member n xs ≡ false → member n (xs ++ (t ∷ [])) ≡ false
member-snoc n t [] ne e = ground arith
member-snoc n t (x ∷ xs) ne e = ground (arith, member-snoc n t xs ne)

pub exit_only :
    (tasks : List ℕ) (released : Bool)
    → none_in (tasks ++ exit_of released) ≡ false
    → member exit_message tasks ≡ false
    → first (tasks ++ exit_of released) ≡ exit_message
    → (tasks ≡ []) × (released ≡ true)
exit_only [] true e real h = (refl, refl)
exit_only [] false e real h = absurd (cc)
exit_only (x ∷ xs) r e real h = absurd (ground (arith, real, h))

exit_first : (released : Bool) → none_in (exit_of released) ≡ false → first (exit_of released) ≡ 0
exit_first true e = refl
exit_first false e = absurd (cc)

erase_self : (x : ℕ) (xs : List ℕ) → erase x (x ∷ xs) ≡ xs
erase_self x xs = ground arith

cancelled_count :
    {m : ℕ} {in_queue : Bool} (n k t : ℕ) (tasks cancelled : List ℕ)
    → in_queue ≡ member t tasks
    → m ≡ k + times n tasks + times n cancelled
    → m ≡ k + times n (erase t tasks) + times n (if in_queue then t ∷ cancelled else cancelled)
cancelled_count n k t tasks cancelled e c = elim (Bool-cases (member t tasks)) [
  | inl there ↦ rw e (
      rw there
        (omega (arith, c, times-erase-member n t tasks there, times-append n (t ∷ []) cancelled)))
  | inr gone ↦ rw e (rw gone (omega (arith, c, ap (times n) (erase-nonmember t tasks gone))))
]

-- What a history amounts to: the queue holds tasks and, once the pool is being released, the exit
-- message behind them; the tasks taken and those still queued are tasks submitted, in that order; each
-- task was submitted as often as it is among those taken, queued and cancelled together; and no worker
-- stops before all that.
pub record Ordered (sent taken cancelled : List ℕ) (released : Bool) (stopped : ℕ) (nodes : List ℕ)
    : Type 0 where
  pub tasks : List ℕ
  pub queued : nodes ≡ tasks ++ exit_of released
  pub real : member exit_message tasks ≡ false
  pub in_order : Within (taken ++ tasks) sent
  pub counted : (n : ℕ) → times n sent ≡ times n taken + times n tasks + times n cancelled
  pub stops_last : 0 < stopped → (tasks ≡ []) × (released ≡ true)

pub submitted-Ordered :
    {sent taken cancelled nodes : List ℕ} {stopped : ℕ} (t : ℕ)
    → t ≢ exit_message
    → Ordered sent taken cancelled false stopped nodes
    → Ordered (sent ++ (t ∷ [])) taken cancelled false stopped (nodes ++ (t ∷ []))
submitted-Ordered {sent} {taken} {cancelled} {nodes} t ne o = record {
  tasks = o.tasks ++ (t ∷ []);
  queued =
      ap (λ l. l ++ (t ∷ [])) (o.queued ∙ append-nil o.tasks)
      ∙ sym (append-nil (o.tasks ++ (t ∷ [])));
  real = member-snoc 0 t o.tasks (λ e. ne (sym e)) o.real;
  in_order =
      subst (λ l. Within l (sent ++ (t ∷ []))) (append_assoc taken o.tasks (t ∷ []))
        (Within-snoc (taken ++ o.tasks) sent t o.in_order);
  counted = λ n.
      omega (arith, o.counted n, times-append n sent (t ∷ []), times-append n o.tasks (t ∷ []));
  stops_last = λ h. absurd (cc ((o.stops_last h).1));
}

pub released-Ordered :
    {sent taken cancelled nodes : List ℕ} {stopped : ℕ}
    → Ordered sent taken cancelled false stopped nodes
    → Ordered sent taken cancelled true stopped (nodes ++ (exit_message ∷ []))
released-Ordered o = record {
  tasks = o.tasks;
  queued = ap (λ l. l ++ (exit_message ∷ [])) (o.queued ∙ append-nil o.tasks);
  real = o.real;
  in_order = o.in_order;
  counted = o.counted;
  stops_last = λ h. absurd (cc ((o.stops_last h).1));
}

-- A worker that finds the exit message.
pub exit-Ordered :
    {sent taken cancelled nodes : List ℕ} {released : Bool} {stopped : ℕ}
    → none_in nodes ≡ false
    → first nodes ≡ exit_message
    → Ordered sent taken cancelled released stopped nodes
    → Ordered sent taken cancelled released (stopped + 1) nodes
exit-Ordered {released = released} some_node at_exit o = record {
  tasks = o.tasks;
  queued = o.queued;
  real = o.real;
  in_order = o.in_order;
  counted = o.counted;
  stops_last = λ h.
      exit_only o.tasks released (ap none_in (sym o.queued) ∙ some_node) o.real
        (ap first (sym o.queued) ∙ at_exit);
}

-- A worker that finds a task.
pub taken-Ordered :
    {sent taken cancelled nodes : List ℕ} {released : Bool} {stopped : ℕ}
    → none_in nodes ≡ false
    → first nodes ≢ exit_message
    → Ordered sent taken cancelled released stopped nodes
    → Ordered sent
        (taken ++ (first nodes ∷ []))
        cancelled
        released
        stopped
        (erase (first nodes) nodes)
taken-Ordered {sent} {taken} {cancelled} {nodes} {released} {stopped} some_node no_exit o =
    go o.tasks o.queued o.real o.in_order o.counted o.stops_last
  where
    go :
        (tasks : List ℕ)
        → nodes ≡ tasks ++ exit_of released
        → member exit_message tasks ≡ false
        → Within (taken ++ tasks) sent
        → ((n : ℕ) → times n sent ≡ times n taken + times n tasks + times n cancelled)
        → (0 < stopped → (tasks ≡ []) × (released ≡ true))
        → Ordered sent
            (taken ++ (first nodes ∷ []))
            cancelled
            released
            stopped
            (erase (first nodes) nodes)
    go [] e real w c last =
        absurd (no_exit (ap first e ∙ exit_first released (ap none_in (sym e) ∙ some_node)))
    go (x ∷ xs) e real w c last = record {
      tasks = xs;
      queued = ap₂ erase (ap first e) e ∙ erase_self x (xs ++ exit_of released);
      real = ground (arith, real);
      in_order =
          subst (λ l. Within l sent)
            (ap (λ h. taken ++ (h ∷ xs)) (sym (ap first e))
              ∙ sym (append_assoc taken (first nodes ∷ []) xs))
            w;
      counted = λ n. omega (
        arith,
        c n,
        times-append n taken (first nodes ∷ []),
        ap (λ t. times n (t ∷ [])) (ap first e),
        times-append n (x ∷ []) xs,
      );
      stops_last = λ h. absurd (cc ((last h).0));
    }

pub cancelled-Ordered :
    {sent taken cancelled nodes : List ℕ} {released : Bool} {stopped : ℕ} (t : ℕ)
    → t ≢ exit_message
    → Ordered sent taken cancelled released stopped nodes
    → Ordered sent taken
        (if member t nodes then t ∷ cancelled else cancelled)
        released
        stopped
        (erase t nodes)
cancelled-Ordered {sent} {taken} {cancelled} {nodes} {released} {stopped} t ne o = record {
  tasks = erase t o.tasks;
  queued = ap (erase t) o.queued ∙ erase-tasks t o.tasks released ne;
  real = member-erase 0 t o.tasks o.real;
  in_order = Within-erase taken o.tasks sent t o.in_order;
  counted = λ n.
      cancelled_count n (times n taken) t o.tasks cancelled
        (ap (member t) o.queued ∙ member-tasks t o.tasks released ne) (o.counted n);
  stops_last = λ h. (ap (erase t) (o.stops_last h).0, (o.stops_last h).1);
}
