-- ===== src/Lib.antt =====
-- OSV-Scanner reads the packages of a project or an image, asks for the advisories that affect
-- them, and reports what it finds. Modelled here is the code between the extractors and the
-- printers: it decides whether an advisory affects a package, puts advisories that are aliases of
-- each other in one group, scores a group, removes what the configuration ignores, checks licenses
-- against an allowlist, and compares two results.
--
-- The files and the code:
--   Prelude        Go strings as lists of code points, lists, sorting by a comparator, association
--                  lists, and chains of steps that may panic
--   Osv            the records of the OSV schema (generated bindings), with the fields that are read
--   Spdx           internal/spdx/satisfies.go: tokenise, parse and its descent, Satisfies. The token
--                  list is passed on in place of the mutable `tokens`; an index out of range is the
--                  outcome `panic`
--   Identifiers    internal/identifiers/identifiers.go: the comparators of identifiers
--   Grouper        internal/grouper/grouper.go and grouper_models.go: Group. The slice of group ids
--                  is a list, the maps are association lists
--   Models         pkg/models/results.go: the results of a scan, and Flatten
--   Semverlike     internal/utility/semverlike/version-semver-like.go: parsing and comparing versions
--   Severity       internal/utility/severity/severity.go, and MaxSeverity of internal/output/table.go
--   Vulns          internal/utility/vulns/: whether an advisory affects a package, fixed versions
--   Exclude        pkg/osvscanner/exclude.go: the patterns of --exclude
--   Config         internal/config/config.go: entries that ignore, and the cache of configurations
--   Filter         pkg/osvscanner/filter.go: what is removed from packages and results
--   Ci             internal/ci/vulnerability_result_diff.go: the difference of two results
--   Requests       internal/datasource/cache.go: Get of RequestCache, whose parts under the lock are
--                  the steps of goroutines
--   Upgrade        internal/remediation/upgrade/: levels of upgrades and their specifications
--   Build          pkg/osvscanner/vulnerability_result.go: what buildVulnerabilityResults makes of the
--                  scanned packages. Analysis marks groups, Package is the body of the loop, Sources
--                  groups by source
--   Output         internal/output/output_result.go: the report. Counts and their sums, Vulns and
--                  Fixes for the vulnerabilities of a package, Packages, Sources and Report for the
--                  levels above, Layers for the image; Go's maps are association lists, and what is
--                  proved does not look at their order
--   Subgraph       internal/resolution/dependency_subgraph.go: ComputeSubgraphs. A node is its index, the
--                  maps are association lists, and the loop over the levels runs on fuel
--   Remediation    internal/remediation/remediation.go: MatchVuln, which vulnerabilities a remediation
--                  considers, on the subgraphs of Subgraph and the scores of Severity
--   Override       internal/resolution/client/override_client.go: the versions put in front of a
--                  client's; the slice of versions is a list, its binary search a search in order
-- A component has its definitions in Defs or in the file of its name (Spdx: Node, Lexer, Outcome,
-- Descent; Build and Output: as above), its proofs in the other children, named for what they prove, and examples in Tests.
--
-- How the parts interact: Filter asks Config for the configuration of each source and passes on the
-- manager with its cache and the set of entries marked as used. Ci takes Flatten from Models, and
-- groups and scores what is left of a package with Grouper and Severity. Grouper sorts with
-- Identifiers. Build asks Config whether a package's vulnerabilities or licenses are overridden, groups
-- with Grouper, and checks licenses with Spdx; Output reports what Build and Filter leave. Vulns
-- reads the same package as Config and Filter.
--
-- Bounds and fuel: integers are natural numbers; no modelled code does arithmetic that could wrap
-- but the components of versions, which the source holds as big integers. A score is in tenths. The
-- descent of the license parser runs on fuel, three times the number of tokens and three; that
-- this is enough is part of the results, as it is for the levels of Subgraph, two more than there are
-- nodes. `sort.Slice` on events is the insertion sort that Go runs
-- on up to 12 elements.
--
-- Parameters: `strings.ToLower`, the CVSS parsers and their rating, the compilers of globs and regular
-- expressions, comparing versions and ecosystems (osv-scalibr), the file system and the TOML
-- decoder, source analysis, and the time. Pointers are numbers that stand for them.
--
-- Not modelled: logging and warnings, which change no result; the extractors, the API clients and
-- the resolution of dependencies, which talk to the network or are third-party; the printers and the
-- terminal; the strategies of remediation, which rest on the resolver. Of the
-- subgraphs, IsDevOnly and ConstrainingSubgraph; of the override client, MatchingVersions; of the request cache, GetMap and
-- SetMap; of the report, the summary of the licenses and the texts that are printed; the panic of
-- Vulns on a version or an ecosystem that does not parse.
pub mod Prelude
pub mod Spdx
pub mod Osv
pub mod Identifiers
pub mod Models
pub mod Grouper
pub mod Semverlike
pub mod Exclude
pub mod Config
pub mod Filter
pub mod Severity
pub mod Upgrade
pub mod Vulns
pub mod Ci
pub mod Requests
pub mod Build
pub mod Output
pub mod Subgraph
pub mod Remediation
pub mod Override
