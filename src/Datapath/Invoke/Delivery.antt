-- ===== src/Datapath/Invoke/Delivery.antt =====
-- Repeated calls of `spine_invoke` of src/lib/spine.c on one connection, as a congestion control module
-- makes them from its callbacks.
use spine_kernel.Prelude.{
  ℕ, ◌≡◌, ◌≤◌, refl, true, false, inl, inr, All, is_neg, Option, some, List, [], ◌∷◌, ◌++◌, ◌>>=◌,
}
use spine_kernel.Datapath.State.{SpineDatapath, Kernel}
use spine_kernel.Datapath.Registry.Slots.{IsValid, IsOpen}
use spine_kernel.Datapath.Invoke.{CongestionControl, spine_invoke}
use spine_kernel.Datapath.Invoke.Safety.{Obeys, spine_invoke-IsValid}

module _ {S : Type 0} (m : CongestionControl S) (p : ℕ) where
  -- One call for each of the kernel's answers.
  unfoldable pub invoke_all : List Kernel → SpineDatapath → S → Option (SpineDatapath × S)
  invoke_all [] dp s = some (dp, s)
  invoke_all (kernel ∷ kernels) dp s = do
    (ret, dp, s) ← spine_invoke m kernel dp (some p) s
    invoke_all kernels dp s

module _ {S : Type 0} (m : CongestionControl S) (Good : S → Type 0) (p : ℕ) where
  -- The calls run without a fault, keep the table valid and the connection open, and a create message
  -- that is out stays out.
  invoke_all-IsOpen :
      (kernels : List Kernel) (dp : SpineDatapath) (s : S) (o : IsOpen dp p)
      → Obeys m Good dp.pointers o.conn.impl
      → Good s
      → IsValid dp
      → (dp' : SpineDatapath) × (s' : S) × (invoke_all m p kernels dp s ≡ some (dp', s'))
        × IsValid dp'
        × (o' : IsOpen dp' p) × (o.priv.sent_create ≡ true → o'.priv.sent_create ≡ true)
  unfolding invoke_all
  invoke_all-IsOpen [] dp s o obeys good v = (dp, s, refl, v, o, λ out. out)
  invoke_all-IsOpen (kernel ∷ kernels) dp s o obeys good v =
      let (ret, dp₁, s₁, run, good₁, i) =
        spine_invoke-IsValid m Good kernel dp p s o obeys good v in
      let (dp', s', runs, v', o', out) =
        invoke_all-IsOpen kernels dp₁ s₁ i.still (rw (i.pointers, i.impl) obeys) good₁ i.valid in
      (dp', s', rw run runs, v', o', λ h. out (i.stays h))

  -- The create message of an open connection gets through: take calls of `spine_invoke` on it, at one of
  -- which the kernel delivers, at least 100 ms after the connection's last attempt and after the reading
  -- of the clock at each of the calls before. Then the calls run without a fault, the table stays
  -- valid and the connection open, and its create message is out after the last of them, however many of
  -- them fail to send it.
  pub invoke_all-sent_create :
      (before : List Kernel) (kernel : Kernel) (after : List Kernel) (dp : SpineDatapath) (s : S)
      (o : IsOpen dp p)
      → Obeys m Good dp.pointers o.conn.impl
      → Good s
      → IsValid dp
      → is_neg kernel.send_msg ≡ false
      → 100000 ≤ kernel.since_usecs o.conn.last_create_msg_sent
      → All (λ k. 100000 ≤ kernel.since_usecs (k.now 0)) before
      → (dp' : SpineDatapath) × (s' : S) × (invoke_all m p (before ++ (kernel ∷ after)) dp s
          ≡ some (dp', s'))
        × IsValid dp'
        × (o' : IsOpen dp' p) × (o'.priv.sent_create ≡ true)
  unfolding invoke_all
  invoke_all-sent_create [] kernel after dp s o obeys good v sends old _ =
      let (ret, dp₁, s₁, run, good₁, i) =
        spine_invoke-IsValid m Good kernel dp p s o obeys good v in
      let (dp', s', runs, v', o', out) =
        invoke_all-IsOpen after dp₁ s₁ i.still (rw (i.pointers, i.impl) obeys) good₁ i.valid in
      (dp', s', rw run runs, v', o', out (i.created (sends, old)))
  invoke_all-sent_create (failing ∷ before) kernel after dp s o obeys good v sends old
        (older, rest) =
      let (ret, dp₁, s₁, run, good₁, i) =
        spine_invoke-IsValid m Good failing dp p s o obeys good v in
      let last : 100000 ≤ kernel.since_usecs i.still.conn.last_create_msg_sent = elim i.last [
        | inl same ↦ rw same old
        | inr now ↦ rw now older
      ] in
      let (dp', s', runs, v', o', out) =
        invoke_all-sent_create before kernel after dp₁ s₁ i.still (rw (i.pointers, i.impl) obeys)
          good₁ i.valid sends last rest in
      (dp', s', rw run runs, v', o', out)
