-- ===== src/Lib.antt =====
-- apko: the package resolver of pkg/apk/apk, with versions and constraints, the index of packages,
-- and the resolution of a list of constraints to the packages that are installed; and of the build
-- of images, the files of users and groups of pkg/passwd and the layers of pkg/build.
--
-- How the parts interact: versions are parsed and compared (version.go); a constraint or a provide
-- is a text that is split into a name, an operator, a version and a pin (version.go); the packages
-- of the indexes are mapped by name (repo.go); a resolution rules packages out in a map of
-- disqualified packages, filters the candidates of a name by version and pin, orders them, picks
-- the best, and goes on with its dependencies (repo.go). The packages that are installed are grouped
-- by origin into layers, whose versions and Replaces are read by the same parsers, and the image's
-- files are written to the layer of the package that owns them, at once or by way of plans.
--
-- Base: Boolean tests, lists, Go strings as lists of bytes, Go maps with string keys.
-- Version: Version, CompareVersions, includesVersion and versionDependency.satisfies of
--   pkg/apk/apk/version.go; Version/Parse: versionRegex and ParseVersion. Integers that are parsed
--   are bounded as strconv.Atoi bounds them, by 2 ^ 63 - 1.
-- Constraint: packageNameRegex, ResolvePackageNameVersionPin and ParsedConstraint.SatisfiedBy of
--   version.go; Constraint/Cache: cachedParseVersion and cachedResolvePackageNameVersionPin of
--   pkg/apk/apk/repo.go. Elsewhere the parsers are called without the caches.
-- Package: RepositoryPackage of pkg/apk/apk/repository.go and the fields of Package of
--   pkg/apk/types/package.go that the resolver reads. A pointer is a number, the address, by which
--   the map of disqualified packages is keyed.
-- Filter: filterPackages and its options (version.go).
-- Compare: comparePackages, getDepVersionForName and bestPackage (repo.go).
-- Resolver: PkgResolver, mapPackages, newPkgResolver, Clone, Filtered, Ranked and Extend (repo.go);
--   Resolver/Lookup: candidates, installIf, lookup, filter and order;
--   Resolver/Select: disqualifyProviders, conflictingVersion, disqualifyConflicts, pick, constrain;
--   Resolver/Resolve: ResolvePackage, resolvePackage, nextPackage, maybedqerror, and uniqify of
--   pkg/apk/apk/util.go; Resolver/Dependencies: getPackageDependencies; Resolver/Install:
--   GetPackageWithDependencies and getPackagesWithDependencies; Resolver/Difference:
--   disqualifyResolverDifference and disqualifyDifference.
-- Passwd: the parsing and printing of pkg/passwd. A text is a list of bytes; white space is that of
--   unicode.IsSpace in UTF-8, and a line of 65,536 bytes is too long for bufio.Scanner.
-- Layers/Groups: groupByOriginAndSize of pkg/build/layers.go. A group's pointer is a number; the
--   packages of an installed image have the fields that the grouping reads, and a budget is not
--   negative.
-- Layers/Writer: what the build uses of archive/tar and of the files it reads; which headers the tar
--   format refuses is an argument. Layers/Split: partitionLayers, alignStacks and tarSink of
--   pkg/build/layers.go over the walk of walkFS of pkg/build/tarball.go, which is an argument. The
--   headers stand in a store by the addresses of their files, since the times of directories are
--   changed there. Layers/Plan: planLayers, digestFiles, writeEntries and Digest of
--   pkg/build/layer_plan.go. The hash, the blocks of a header, the contents and the digests of files
--   are arguments.
-- Samples: concrete inputs.
--
-- A regular expression of Go with leftmost-longest matching is modelled as the parser of its
-- groups. State that the code changes (the map of disqualified packages, the selected packages, the
-- maps of existing packages) is passed on explicitly. An error is a value with what its text is
-- made of; a panic is an error of its own. The order in which `range` visits a map is an argument; in
-- Resolver/Difference it is the order of the entries of the map.
--
-- Fuel: the loop over constraints in getPackageDependencies has one round for each dependency, and
-- the loop in getPackagesWithDependencies one for each constraint, since every round deletes the
-- constraint that it chose. The depth of the recursion over dependencies is fuel that the caller
-- gives; a run that spends it ends in the error out_of_fuel.
--
-- Not modelled: the cancellation of a context, tracing, the order in which goroutines hash files (the
-- first error of several is that of the first file), the compression of layers, the global caches of
-- resolvers and of differences, the reading and verifying of indexes, and what installs packages
-- (I/O); sorting slices of more than twelve elements, where slices.SortFunc is not an insertion sort.
pub mod Base
pub mod Version
pub mod Constraint
pub mod Package
pub mod Filter
pub mod Compare
pub mod Resolver
pub mod Layers
pub mod Passwd
pub mod Samples
