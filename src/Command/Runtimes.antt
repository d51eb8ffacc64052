-- ===== src/Command/Runtimes.antt =====
-- The runtimes of cmd/certel/monitor.go never fail to render.
use certel.Prelude.{
  ◌≡◌, refl, sym, subst, String, Bool, true, false, none, some, [], ◌∷◌, str_eq, if◌then◌else◌,
}
use mathlib.Core.Option.{some-injective}
use certel.Prelude.Assoc.{Assoc, lookup}
use certel.Token.{Fallible, error, ok}
use certel.Config.Target.{AlertConfig}
use certel.Probe.Result.{Result}
use certel.Alert.Types.{Bytes, NotifierRuntime}
use certel.Alert.Template.Times.{TemplateError}
use certel.Alert.Template.Payload.{Formats}
use certel.Alert.Template.Render.{Body, parse_body, notifier_runtime}
use certel.Alert.Template.Renders.Numbers.{Marshals}
use certel.Alert.Template.Renders.Accepted.{parse_body-renders}
use certel.Command.Monitor.{NotifierConfig, with_runtime, build_runtimes}

abbrev pub Renders : NotifierRuntime → Type 0
Renders rt = (r : Result) (recovered : Bool) → (x : Bytes) × (rt.render r recovered ≡ some x)

abbrev AllRender : Assoc NotifierRuntime → Type 0
AllRender rows = (name : String) (rt : NotifierRuntime) → lookup name rows ≡ some rt → Renders rt

with_runtime-AllRender :
    (lib : Formats Bytes) (name : String) (cfg : AlertConfig) (b : Fallible TemplateError Body)
    (rest : Fallible (String × TemplateError) (Assoc NotifierRuntime))
    (rows : Assoc NotifierRuntime)
    → ((c : Body) → b ≡ ok c → Renders (notifier_runtime lib cfg c))
    → ((more : Assoc NotifierRuntime) → rest ≡ ok more → AllRender more)
    → with_runtime lib name cfg b rest ≡ ok rows
    → AllRender rows
unfolding lookup
with_runtime-AllRender lib name cfg (error e) rest rows h k i = cc
with_runtime-AllRender lib name cfg (ok c) (error e) rows h k i = cc
with_runtime-AllRender lib name cfg (ok c) (ok more) rows h k i =
    subst (λ (x : Assoc NotifierRuntime). AllRender x) (ok_same i) (first (h c refl) (k more refl))
  where
    ok_same :
        ◌≡◌ {A = Fallible (String × TemplateError) (Assoc NotifierRuntime)}
          (ok ((name, notifier_runtime lib cfg c) ∷ more))
          (ok rows)
        → (name, notifier_runtime lib cfg c) ∷ more ≡ rows
    ok_same q = cc

    first :
        Renders (notifier_runtime lib cfg c)
        → AllRender more
        → AllRender ((name, notifier_runtime lib cfg c) ∷ more)
    first own others k rt e = pick (str_eq name k) e
      where
        pick :
            (b : Bool)
            → (if b then some (notifier_runtime lib cfg c) else lookup k more) ≡ some rt
            → Renders rt
        pick true q =
            subst (λ (x : NotifierRuntime). Renders x)
              (some-injective (notifier_runtime lib cfg c) rt q) own
        pick false q = others k rt q

-- Each runtime that the monitor builds at its start renders every result, for a problem and for a
-- recovery.
pub build_runtimes-renders :
    (lib : Formats Bytes) (m : Marshals lib) (configs : Assoc NotifierConfig)
    (runtimes : Assoc NotifierRuntime)
    → build_runtimes lib configs ≡ ok runtimes
    → (name : String) (rt : NotifierRuntime) → lookup name runtimes ≡ some rt
    → (r : Result) (recovered : Bool) → (x : Bytes) × (rt.render r recovered ≡ some x)
unfolding build_runtimes lookup
build_runtimes-renders lib m [] runtimes h name rt e =
    let same : [] ≡ runtimes = cc h in
    let there : none ≡ some rt =
      subst (λ (rows : Assoc NotifierRuntime). lookup name rows ≡ some rt) (sym same) e in
    cc there
build_runtimes-renders lib m ((k, n) ∷ rest) runtimes h name rt e =
    with_runtime-AllRender lib k n.settings (parse_body lib n.body n.recovery_body)
      (build_runtimes lib rest) runtimes
      (λ b p. parse_body-renders lib m n.settings n.body n.recovery_body b p)
      (λ more p name' rt' q. build_runtimes-renders lib m rest more p name' rt' q) h name rt e
