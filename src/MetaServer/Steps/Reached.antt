-- ===== src/MetaServer/Steps/Reached.antt =====
-- Every sequence of calls keeps the service consistent, and does to its names and files what the
-- abstract service may do.
use sponge_bob.Prelude.{
  ℕ, ◌<◌, ◌≡◌, refl, ap, subst, sym, ◌∙◌, String, Bool, Option, none, some, List, [], ◌∷◌, arith,
  ◌+◌, ◌-◌, ◌≤◌, min, u64_mod, true, inl, inr, Option-cases,
}
use sponge_bob.Result.{Result, ok, fault, ◌>>=◌}
use sponge_bob.Containers.Table
use sponge_bob.InodeTable
use sponge_bob.Inode.{Inode, Dentry, reg_file, get_dentry}
use sponge_bob.InodeTable.Partition.{get_inode_found}
use sponge_bob.FileMap.{reclaim_fd}
use sponge_bob.FileMap.Descriptors.{reclaim_fd-IsValid}
use sponge_bob.MetaServer.Messages.{
  TransferRequest, TransferReply, DentryInfo, Response, success, FileBlockInfo,
}
use sponge_bob.MetaServer.Transfer.{read_blocks}
use sponge_bob.MetaServer.Transfer.Located.{locate, serve}
use sponge_bob.MetaServer.State.{Service, root_inum}
use sponge_bob.MetaServer.Handlers
use sponge_bob.MetaServer.Handlers.{clamp_length}
use sponge_bob.MetaServer.Consistent.{Consistent}
use sponge_bob.MetaServer.Consistent.Frame.{entry_live}
use sponge_bob.MetaServer.Create.{create_file_new, create_file__new}
use sponge_bob.MetaServer.Directory.{read_directory_total}
use sponge_bob.MetaServer.Open.{with_files-Consistent, open_old, open_new, open_file_total}
use sponge_bob.MetaServer.Read.{read_file_eq, read_file_fault, read_file_missing, read_file_total}
use sponge_bob.MetaServer.Register.{register_memory_region_total}
use sponge_bob.MetaServer.Remove.File.{remove_file_total, remove_file_missing}
use sponge_bob.MetaServer.Write.File.{Writable, write_file_total}
use sponge_bob.MetaServer.Abstract.{
  Files, Same, Sets, Does, file_of, empty_file, view, Call, read_call, write_call, create_call,
  open_call, close_call, remove_call, list_call, register_call, reads, creates, creates_none,
  opens_new, opens_old, closes, removes, removes_none, lists, registers,
}
use sponge_bob.MetaServer.Steps.{
  Registrable, Step, read_step, write_step, create_step, open_step, close_step, remove_step,
  list_step, register_step, Reach, here, next,
}
use sponge_bob.MetaServer.Steps.Effects.{
  Created-Sets, Removed-Sets, FileWritten-Does, view_found, view_missing,
}

-- A call that returns twice returns the same state, with the same answer.
same_state :
    {A : Type 0} {m : Result (A × Service)} {a a' : A} {t t' : Service}
    → m ≡ ok (a, t)
    → m ≡ ok (a', t')
    → t ≡ t'
same_state e f = cc

same_answer :
    {A : Type 0} {m : Result (A × Service)} {a a' : A} {t t' : Service}
    → m ≡ ok (a, t)
    → m ≡ ok (a', t')
    → a ≡ a'
same_answer e f = cc

module _ (hash : String → ℕ) (rand : ℕ → ℕ) {s : Service} (c : Consistent s) where
  -- What a step may do.
  abbrev Effect : Call → Service → Type 0
  Effect call s' = Consistent s' × Does hash (view hash s) (view hash s') call

  -- A call that leaves the state as it is.
  idle :
      {call : Call} {s' : Service}
      → s ≡ s'
      → (Same (view hash s) (view hash s) → Does hash (view hash s) (view hash s) call)
      → Effect call s'
  idle {call} e d = subst (Effect call) e (c, d (λ name. refl))

  root_is : (root : Inode) → Table.find root_inum s.inode_table.table ≡ some root → c.root ≡ root
  root_is root f = ground (arith, c.root_found, f)

  -- A read that starts inside the file serves the bytes by their places.
  read_places :
      (request : TransferRequest) (response : Response TransferReply) (s' : Service) (d : Dentry)
      (i : Inode)
      → Handlers.read_file hash request s ≡ ok (response, s')
      → get_dentry hash request.name c.root ≡ some d
      → Table.find d.inum s.inode_table.table ≡ some i
      → request.offset ≤ i.size
      → request.offset + request.length < u64_mod
      → (reply : TransferReply) × (response ≡ success reply)
        × (reply.bytes ≡ min request.length (i.size - request.offset))
        × ((j : ℕ)
            → j < reply.bytes
            → serve reply.block_info j ≡ locate i.block_info_list (request.offset + j))
  read_places request response s' d i run n f inside bounded =
      let (reply, run', all, serves) = read_file_total hash request c d i n f inside bounded in
      (reply, same_answer run run', all, λ j h. ground (arith, serves.at j))

  read-Effect :
      (request : TransferRequest) (response : Response TransferReply) (s' : Service)
      → Handlers.read_file hash request s ≡ ok (response, s')
      → Effect (read_call request response) s'
  read-Effect request response s' run = elim (Option-cases (get_dentry hash request.name c.root)) [
    | inl n ↦ absurd (ground (arith, run, read_file_missing hash request c n))
    | inr (d, n) ↦
        let (_, (i, f)) = entry_live c (hash request.name) d (unfold get_dentry in n) in
        go d i n f
          (read_blocks i request.offset (clamp_length request.offset request.length i.size)) refl
  ]
    where
      go :
          (d : Dentry) (i : Inode)
          → get_dentry hash request.name c.root ≡ some d
          → Table.find d.inum s.inode_table.table ≡ some i
          → (cut : Result (List FileBlockInfo × ℕ))
          → read_blocks i request.offset (clamp_length request.offset request.length i.size) ≡ cut
          → Effect (read_call request response) s'
      go d i n f (ok (ms, left)) e =
          idle (same_state (read_file_eq hash request c d i _ left ms n f refl e) run) (
            reads request response (file_of i) (view_found hash c request.name d i n f)
              (read_places request response s' d i run n f))
      go d i n f (fault x) e =
          absurd (ground (arith, run, read_file_fault hash request c d i x n f e))

  write-Effect :
      (request : TransferRequest) (response : Response TransferReply) (s' : Service)
      → Writable hash request s c.root
      → Handlers.write_file hash rand request s ≡ ok (response, s')
      → Effect (write_call request response) s'
  write-Effect request response s' w run =
      let (reply, t, run', x) = write_file_total hash rand request c w in
      subst (λ a. Effect (write_call request a) s') (same_answer run' run)
        (subst (Effect (write_call request (success reply))) (same_state run' run)
          (x.consistent, FileWritten-Does hash request reply c x))

  create_old :
      (name : String) (dir_wanted : Bool) (d : Dentry)
      → get_dentry hash name c.root ≡ some d
      → Handlers.create_file hash name dir_wanted s ≡ ok (success d.inum, s)
  unfolding Handlers.create_file
  create_old name dir_wanted d n =
      rw (get_inode_found root_inum c.root s.inode_table c.table c.root_found) (rw (n, ◌>>=◌) refl)

  create-Effect :
      (name : String) (dir_wanted : Bool) (response : Response ℕ) (s' : Service)
      → (get_dentry hash name c.root ≡ none → s.inode_table.cur_size < s.inode_table.total_size)
      → Handlers.create_file hash name dir_wanted s ≡ ok (response, s')
      → Effect (create_call name dir_wanted response) s'
  create-Effect name dir_wanted response s' free run =
      elim (Option-cases (get_dentry hash name c.root)) [
        | inl n ↦
            let (i, t, run', x) = create_file_new hash name c n (free n) dir_wanted in
            subst (Effect (create_call name dir_wanted response)) (same_state run' run) (
              x.consistent,
              creates name dir_wanted response (view_missing hash c name n)
                  (Created-Sets hash name c _ i n x),
            )
        | inr (d, n) ↦
            let (_, (i, f)) = entry_live c (hash name) d (unfold get_dentry in n) in
            idle (same_state (create_old name dir_wanted d n) run)
              (creates_none name dir_wanted response (file_of i) (view_found hash c name d i n f))
      ]

  open-Effect :
      (name : String) (response : Response (Option ℕ)) (s' : Service)
      → (get_dentry hash name c.root ≡ none → s.inode_table.cur_size < s.inode_table.total_size)
      → Handlers.open_file hash name s ≡ ok (response, s')
      → Effect (open_call name response) s'
  open-Effect name response s' free run =
      let (fd, t, run', x) = open_file_total hash name c free in
      let reached = subst Consistent (same_state run' run) x.consistent in
      elim (Option-cases (get_dentry hash name c.root)) [
        | inl n ↦
            let (i, t, made_run, made) = create_file__new hash name c n (free n) in
            (
              reached,
              opens_new name response (view_missing hash c name n) (
                  subst
                    (λ u. Sets hash name (some (empty_file reg_file)) (view hash s) (view hash u))
                    (same_state (open_new hash name c i t.inode_table n made_run) run)
                    (Created-Sets hash name c _ i n made)),
            )
        | inr (d, n) ↦
            let (_, (i, f)) = entry_live c (hash name) d (unfold get_dentry in n) in
            (
              reached,
              opens_old name response (file_of i) (view_found hash c name d i n f) (
                  subst (λ u. Same (view hash s) (view hash u))
                    (same_state (open_old hash name c d n) run) (λ other. refl)),
            )
      ]

  close-Effect :
      (fd : ℕ) (response : Response Bool) (s' : Service)
      → Handlers.close_file fd s ≡ ok (response, s')
      → Effect (close_call fd response) s'
  unfolding Handlers.close_file
  close-Effect fd response s' run =
      let m = (reclaim_fd fd s.file_map).1 in
      let (_, v, _) = reclaim_fd-IsValid fd fd s.file_map c.descriptors in
      subst (Effect (close_call fd response)) (same_state refl run)
        (with_files-Consistent c m v, closes fd response (λ name. refl))

  remove-Effect :
      (name : String) (response : Response Bool) (s' : Service)
      → Handlers.remove_file hash name s ≡ ok (response, s')
      → Effect (remove_call name response) s'
  remove-Effect name response s' run = elim (Option-cases (get_dentry hash name c.root)) [
    | inl n ↦
        let run' = remove_file_missing hash name c n in
        subst (λ a. Effect (remove_call name a) s') (same_answer run' run)
          (idle (same_state run' run) (removes_none name (view_missing hash c name n)))
    | inr (d, n) ↦
        let (not_root, (i, f)) = entry_live c (hash name) d (unfold get_dentry in n) in
        let (t, run', x) = remove_file_total hash name c d n i f not_root in
        subst (λ a. Effect (remove_call name a) s') (same_answer run' run)
          (subst (Effect (remove_call name (success true))) (same_state run' run) (
            x.consistent,
            removes name (file_of i) (view_found hash c name d i n f)
                (Removed-Sets hash name c d i n f x),
          ))
  ]

  list-Effect :
      (path : String) (response : Response (List DentryInfo)) (s' : Service)
      → Handlers.read_directory path s ≡ ok (response, s')
      → Effect (list_call path response) s'
  list-Effect path response s' run =
      let (es, run', _) = read_directory_total path c in
      idle (same_state run' run) (lists path response)

  register-Effect :
      (nodeid addr len : ℕ) (response : Response (Unit {0})) (s' : Service)
      → Registrable nodeid addr len s
      → Handlers.register_memory_region nodeid addr len s ≡ ok (response, s')
      → Effect (register_call nodeid addr len response) s'
  register-Effect nodeid addr len response s' g run =
      let (t, run', x) =
        register_memory_region_total nodeid addr len c g.small g.some_bytes g.fits g.aligned
          g.unowned in
      subst (Effect (register_call nodeid addr len response)) (same_state run' run) (
        x.consistent,
        registers nodeid addr len response (λ name. ap (λ (u : Service). view hash u name) x.shape),
      )

  Step-Effect : {call : Call} {s' : Service} → Step hash rand s s' call → Effect call s'
  Step-Effect (read_step request response run) = read-Effect request response _ run
  Step-Effect (write_step request response root f w run) =
      write-Effect request response _ (subst (Writable hash request s) (sym (root_is root f)) w) run
  Step-Effect (create_step name dir_wanted response root g run) =
      create-Effect name dir_wanted response _
        (λ n. g.free (ap (get_dentry hash name) (sym (root_is root g.found)) ∙ n)) run
  Step-Effect (open_step name response root g run) =
      open-Effect name response _
        (λ n. g.free (ap (get_dentry hash name) (sym (root_is root g.found)) ∙ n)) run
  Step-Effect (close_step fd response run) = close-Effect fd response _ run
  Step-Effect (remove_step name response run) = remove-Effect name response _ run
  Step-Effect (list_step path response run) = list-Effect path response _ run
  Step-Effect (register_step nodeid addr len response g run) =
      register-Effect nodeid addr len response _ g run

-- The names and files that the calls lead to from `f`, the last call first.
pub data AbstractReach (hash : String → ℕ) (f : Files) : List Call → Files → Type 0 where
  start : AbstractReach hash f [] f
  change :
      {calls : List Call} {call : Call} {g g' : Files}
      → AbstractReach hash f calls g
      → Does hash g g' call
      → AbstractReach hash f (call ∷ calls) g'

-- From a consistent service on, calls keep the service consistent.
pub Reach-Consistent :
    (hash : String → ℕ) (rand : ℕ → ℕ) {s t : Service} {calls : List Call}
    → Consistent s
    → Reach hash rand s calls t
    → Consistent t
Reach-Consistent hash rand c here = c
Reach-Consistent hash rand c (next r st) =
    (Step-Effect hash rand (Reach-Consistent hash rand c r) st).0
