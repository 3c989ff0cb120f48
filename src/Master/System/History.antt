-- ===== src/Master/System/History.antt =====
-- How the state of the master goes on: what later states keep of jobs and of tasks that nobody
-- holds.
use dist_command_exec.Prelude.{
  ℕ, ap, subst, ◌∙◌, ◌+◌, ◌≤◌, ◌<◌, ◌≡◌, refl, String, Option, none, some, List, arith, str_eq,
  eq_iff, if◌then◌else◌, occurs, update, Bool-cases, inl, inr, false,
}
use dist_command_exec.Types.{Task, Result}
use dist_command_exec.Master.Store.{Job}
use dist_command_exec.Master.System.Core.{Core, live}
use dist_command_exec.Master.System.Life.{absent, Follows, stays, Follows-trans, life}

-- Only status and result of a job change, and the result no more once it is there.
abbrev pub Grows : Job → Job → Type 0
Grows job job' =
    (job' ≡ record job { status = job'.status; result = job'.result })
    × ((r : Result) → job.result ≡ some r → job'.result ≡ some r)

-- Jobs stay and grow, and live as they should; a task that nobody holds is left as it is, and
-- nobody takes it up. `a` and `b` count the Cancels of an ID that may still write.
pub record Moves (a b : String → ℕ) (c c' : Core) : Type 0 where
  pub grows :
      (id : String) (job : Job)
      → c.jobs id ≡ some job
      → (job' : Job) × (c'.jobs id ≡ some job') × Grows job job'
  pub idle : (p : ℕ) → p < c.fresh → live c p ≡ 0 → (live c' p ≡ 0) × (c'.heap p ≡ c.heap p)
  pub ages : c.fresh ≤ c'.fresh
  pub lives : (id : String) → Follows (life (c.jobs id), a id) (life (c'.jobs id), b id)

-- The same without a Cancel that comes or writes.
abbrev pub Onward : Core → Core → Type 0
Onward c c' = (a : String → ℕ) → Moves a a c c'

Grows-refl : (job : Job) → Grows job job
Grows-refl job = (refl, λ r e. e)

Grows-trans : (a b c : Job) → Grows a b → Grows b c → Grows a c
Grows-trans a b c (same, final) (same', final') = (
  same' ∙ ap (λ (j : Job). record j { status = c.status; result = c.result }) same,
  λ r e. final' r (final r e),
)

pub Onward-refl : (c : Core) → Onward c c
Onward-refl c = λ a. record {
  grows = λ id job known. (job, known, Grows-refl job);
  idle = λ p below free. (free, refl);
  ages = omega arith;
  lives = λ id. stays;
}

pub Moves-trans :
    {a b d : String → ℕ} (x y z : Core) → Moves a b x y → Moves b d y z → Moves a d x z
Moves-trans x y z f g = record {
  grows = λ id job known.
      let (job', known', grown) = f.grows id job known in
      let (job'', known'', grown') = g.grows id job' known' in
      (job'', known'', Grows-trans job job' job'' grown grown');
  idle = λ p below free.
      let (free', same) = f.idle p below free in
      let (free'', same') = g.idle p (omega (arith, f.ages)) free' in (free'', cc (same, same'));
  ages = omega (arith, f.ages, g.ages);
  lives = λ id. Follows-trans (f.lives id) (g.lives id);
}

pub Onward-trans : (x y z : Core) → Onward x y → Onward y z → Onward x z
Onward-trans x y z f g = λ a. Moves-trans x y z (f a) (g a)

-- A dispatcher that holds a task may write the task and move it.
pub work-Onward :
    (c : Core) (p : ℕ) (t : Task) (queue held : List ℕ)
    → 0 < live c p
    → ((q : ℕ) → occurs q queue + occurs q held ≤ live c q)
    → Onward c (record c { heap = update c.heap p t; queue = queue; held = held })
work-Onward c p t queue held busy fewer = λ a. record {
  grows = λ id job known. (job, known, Grows-refl job);
  idle = λ q below free. (omega (arith, fewer q), ground (arith, busy, free));
  ages = omega arith;
  lives = λ id. stays;
}

-- Tasks go from the queue to dispatchers, or out of their hands.
pub move-Onward :
    (c : Core) (queue held : List ℕ)
    → ((q : ℕ) → occurs q queue + occurs q held ≤ live c q)
    → Onward c (record c { queue = queue; held = held })
move-Onward c queue held fewer = λ a. record {
  grows = λ id job known. (job, known, Grows-refl job);
  idle = λ q below free. (omega (arith, fewer q), refl);
  ages = omega arith;
  lives = λ id. stays;
}

abbrev GrowsTo : Job → Job → Type 0
GrowsTo job' job = Grows job job'

-- The store writes a job; `a` and `b` differ at its ID at most.
pub put-Moves :
    {a b : String → ℕ} (c : Core) (jobs : String → Option Job) (id : String) (old new : Job)
    → ((j : String) → jobs j ≡ (if str_eq id j then some new else c.jobs j))
    → c.jobs id ≡ some old
    → Grows old new
    → Follows (life (some old), a id) (life (some new), b id)
    → ((j : String) → str_eq id j ≡ false → b j ≡ a j)
    → Moves a b c (record c { jobs = jobs })
put-Moves {a} {b} c jobs id old new put known grown living others = record {
  grows = λ j job there. elim (Bool-cases (str_eq id j)) [
    | inl hit ↦
        let here : c.jobs j ≡ some old =
          subst (λ i. c.jobs i ≡ some old) ((eq_iff id j).0 hit) known in
        let one : old ≡ job = ground (arith, here, there) in
        (new, rw (put j, hit) refl, subst (GrowsTo new) one grown)
    | inr miss ↦ (job, rw (put j, miss) there, Grows-refl job)
  ];
  idle = λ p below free. (free, refl);
  ages = omega arith;
  lives = λ j. elim (Bool-cases (str_eq id j)) [
    | inl hit ↦ let same : id ≡ j = (eq_iff id j).0 hit in rw (put j, hit, ← same, known) living
    | inr miss ↦ rw (put j, miss, others j miss) stays
  ];
}

-- The store writes a job that has no result.
pub put-Onward :
    (c : Core) (jobs : String → Option Job) (id : String) (old new : Job)
    → ((j : String) → jobs j ≡ (if str_eq id j then some new else c.jobs j))
    → c.jobs id ≡ some old
    → old.result ≡ none
    → new ≡ record old { status = new.status; result = new.result }
    → ((k : ℕ) → Follows (life (some old), k) (life (some new), k))
    → Onward c (record c { jobs = jobs })
put-Onward c jobs id old new put known open_job same living = λ a.
    put-Moves c jobs id old new put known (same, λ r e. absurd (ground (arith, open_job, e)))
      (living (a id)) (λ j miss. refl)

-- A new job and its new task.
pub new-Onward :
    (c : Core) (t t' : Task) (tasks : String → Option ℕ) (jobs : String → Option Job)
    (queue : List ℕ) (id : String) (job : Job)
    → ((j : String) → jobs j ≡ (if str_eq id j then some job else c.jobs j))
    → c.jobs id ≡ none
    → ((q : ℕ) → q < c.fresh → occurs q queue ≡ occurs q c.queue)
    → ((k : ℕ) → Follows (absent, k) (life (some job), k))
    → Onward c (record c {
      heap = update (update c.heap c.fresh t) c.fresh t';
      tasks = tasks;
      jobs = jobs;
      queue = queue;
      fresh = c.fresh + 1;
    })
new-Onward c t t' tasks jobs queue id job put new same living = λ a. record {
  grows = λ j old there. (old, ground (arith, put j, there, new, eq_iff id j), Grows-refl old);
  idle = λ q below free. (omega (arith, free, same q below), ground (arith, below));
  ages = omega arith;
  lives = λ j. elim (Bool-cases (str_eq id j)) [
    | inl hit ↦
        let here : c.jobs j ≡ none = subst (λ i. c.jobs i ≡ none) ((eq_iff id j).0 hit) new in
        rw (put j, hit, here) (living (a j))
    | inr miss ↦ rw (put j, miss) stays
  ];
}
