-- ===== src/Lib.antt =====
-- A model of prolewatch, which guards the build of a package from the AUR: a scan of the recipe and its
-- sources leads to a deterministic assessment and a report; a one-time approval bound to the content
-- lets a user override it; the build then reaches the network only through a broker that asks the user
-- for each destination. The model is of the decisions on that way.
--
-- Safe      internal/safe: hexadecimal digests (ValidHexDigest), the check of a stream for
--           text (Content: ContentValidator), and the single-key and line prompts (Prompt: ReadChoice,
--           ReadYesNo, ReadChoiceOrLine).
-- Brief     internal/brief: findings and their order (Findings: SortFindings), package names
--           (PackageBase: ValidatePackageBase), and the text of a patch that is scanned for behaviour
--           (Diff: unifiedDiffBehaviorText, with its line splitter and hunk headers); manifest records
--           (Manifest: ValidateManifestRecord and manifestEntryHashes); the rewriting of a package
--           (Filter: dropSet, FilterArchive and writeFilteredMTree, with NormalizeMember in Path and
--           DecodeMTreePath in Mtree). Surfaces: the registry of surfaces.go (Surfaces/Registry),
--           ClassifySurface, EnumerateSurfaces and SurfacesRequiringDecision.
-- Egress    internal/egress. Host: ValidRequestHost. Address: AddressPolicy.Port and Public with the
--           reserved networks, and the methods of net.IP that they use (Address/Ip). Broker: the grant
--           table and dialPublic (authorize, permitsHost). Tunnel: clientHelloServerName on its cursor,
--           httpRequestHost, tunnelRequestedHost and checkTunnelHost. Proxy: handle, handleSOCKS and
--           handleHTTP, which put these together. Allowance: ParseSrcinfoSources, classifySource and
--           Permits. Acquire: AcquireWithProgress, fetchDeclared and SourceFilename.
-- Audit     internal/audit. Types: the records of models.go and reports.go. Severity: the ranks.
--           Assess: structuralBlock and assessDeterministicAt. Approvals: Create and Consume.
--           Evaluate: AuditService.evaluate with authorizationSource; Evaluate/Review is what it
--           takes from the model's answer. Confirm: the decision that is asked for in the terminal.
--           Marker: decision markers. Carry: carriedDecision. Reports: the outcome checks of
--           Report.Validate. Retention: IDs, Prune and PruneUsed. Config: LoadConfig on a decoded
--           document and Config.Validate. Limits, Transcript and Workspace: effectiveBuildLimits,
--           freezeLimits, outputTranscript and reconcileOnce of resource.go. Artifact:
--           auditAndBind of build.go, which scans the packages, binds them and leads each through the
--           gate. Invocation: ClassifyInvocation, validateMakepkgConfig with openRootOwnedPathMode, and
--           invocationNetworkEnabled. Batches: batchesWithProviderOptions of review.go.
-- Ui        internal/ui. Gate: OrderSurfacesForDisplay, ParseGateChoice and PromptGate, which asks the
--           user what to do with the surfaces of a package.
-- Contain   internal/contain. Subid: LookupSubIDs. Mapping: verifyMappingText.
-- Prelude   tests, lists, bytes and the functions of package strings that the code uses.
-- Tests     the theorems at concrete inputs.
--
-- State is passed explicitly: the broker's tables are the record `Broker`, the directories of
-- approvals the record `ApprovalStore`, and a function that changes one returns the new one. Strings
-- are lists of bytes. What comes from outside is an argument: the prompt agent's answer, the
-- resolver, the dialer (`World` of Broker), the downloads (`Transfer`), identities, paths and stored
-- reports (`World` of Marker), JSON (`Codec`), the events of a terminal, the file operations
-- (`Files`, `Gateway` and `Surroundings` of Artifact), what fstat gives for the components of a path
-- (`FileSystem`, `Probe`), the three numbers that fmt.Sscanf reads, the sizes of encoded requests, the
-- reviewer, clock, process identity and stores (`Env`), and the functions of net,
-- net/http, net/url and strconv (`parse_ip`, `Net`, `ip_string`, `read_request`, `parse_url`,
-- `url_string`).
--
-- Loops are structural, or run on fuel that is the length of their input and one more: the readers of
-- the ClientHello and of the header lines take a byte at least in each round. Letter case is folded on
-- ASCII. A prompt loop takes the events that poll and read give, and waits when there are no more.
--
-- Not modelled: processes, sockets and goroutines, the sandbox and its arguments, the scanner's walk and
-- its rule tables, the clients of external models, the configuration file and its decoder, the text of
-- reports and briefings, and all terminal output.
pub mod Prelude
pub mod Safe
pub mod Brief
pub mod Egress
pub mod Contain
pub mod Ui
pub mod Audit
pub mod Tests
